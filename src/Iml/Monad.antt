-- ===== src/Iml/Monad.antt =====
-- The state of the decoder: it may fail, and of the program it changes the IML pool alone.
use koshka.Base.{Bool}
use koshka.Base.Result.{Result, ok, err, assertion, guard}
use koshka.Base.Result
use koshka.Pool.{Store}
use koshka.Iml.Objects.{Cell}

abbrev pub M : Type 0 → Type 0
M A = Store Cell → Result (A × Store Cell)

abbrev pub pure : {A : Type 0} → A → M A
pure a st = ok (a, st)

infixl 5 ◌>>=◌ ◌>>◌
abbrev pub ◌>>=◌ : {A B : Type 0} → M A → (A → M B) → M B
◌>>=◌ m f st = Result.◌>>=◌ (m st) (λ r. f r.0 r.1)

abbrev pub ◌>>◌ : {B : Type 0} → M (Unit {0}) → M B → M B
m >> k = m >>= λ _. k

-- A computation that does not touch the state.
abbrev pub lift : {A : Type 0} → Result A → M A
lift r st = Result.◌>>=◌ r (λ a. ok (a, st))

abbrev pub assert : Bool → M (Unit {0})
assert b = lift (guard b assertion)
