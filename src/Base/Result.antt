-- ===== src/Base/Result.antt =====
-- What a run of C code comes to: a value, or the fault that ends it.
use mathlib.Core.Bool.{Bool, true, false}
use mathlib.Core.Path.{◌≡◌, refl}
use mathlib.Core.Logic.{◌⊎◌, inl, inr}

-- `assertion` is a failed assert, `bounds` an access outside an object or through NULL,
-- `undefined` an operation whose result C leaves undefined, `fuel` a loop that is still running.
pub data Fault : Type 0 where
  assertion bounds undefined fuel : Fault

pub data Result {ℓ} (V : Type ℓ) : Type ℓ where
  err : (reason : Fault) → Result V
  ok : (value : V) → Result V

-- The statement `assert(test)`, and the other tests that end the program.
abbrev pub guard : Bool → Fault → Result (Unit {0})
guard false reason = err reason
guard true reason = ok tt

infixl 5 ◌>>=◌ ◌>>◌
-- One statement after another: the fault of the first is the fault of both.
abbrev pub ◌>>=◌ {ℓ κ} : {V : Type ℓ} {W : Type κ} → Result V → (V → Result W) → Result W
err reason >>= rest = err reason
ok value >>= rest = rest value

abbrev pub ◌>>◌ {ℓ} : {W : Type ℓ} → Result (Unit {0}) → Result W → Result W
first >> second = first >>= λ done. second

-- A run that ends with a fault.
abbrev pub Faults : {V : Type 0} → Result V → Type 0
Faults r = (e : Fault) × (r ≡ err e)

pub ok-inj : {V : Type 0} {a b : V} → ok a ≡ ok b → a ≡ b
ok-inj e = cc

pub ok≢err : {V : Type 0} {v : V} {e : Fault} → ok v ≡ err e → ⊥
ok≢err e = cc

pub Result-cases : {V : Type 0} (r : Result V) → Faults r ⊎ ((v : V) × (r ≡ ok v))
Result-cases (err e) = inl (e, refl)
Result-cases (ok v) = inr (v, refl)
