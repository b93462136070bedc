-- ===== src/Iml/Starved.antt =====
-- Steps on a pool without a buffer, which is what is left where calloc refused it.
use koshka.Base.{◌≡◌, ◌⊎◌, inl, inr, refl, arith, if◌then◌else◌, Bool, true, false}
use koshka.Base.Result.{Result, ok, err, Faults}
use koshka.Pool.{Store, pool_invalid_handle}
use koshka.Pool.Missing.{NoBuffer, pool_push-GivesUp}
use koshka.Iml.Objects.{Object, Cell, blank, bytes, length-bytes, push_object}
use koshka.Iml.Yields.{sizeof-le}
use koshka.Iml.Types.{Expression, MathOp}
use koshka.Iml.Expressions.{node_expression}
use koshka.Iml.Monad.{M, pure, lift, ◌>>=◌}

-- The run faults, or leaves the pool without a buffer.
abbrev pub Starves : {A : Type 0} → Result (A × Store Cell) → Type 0
Starves {A} r = Faults r ⊎ ((a : A) × (st : Store Cell) × (r ≡ ok (a, st)) × NoBuffer st.pool)

pub pure-Starves : {A : Type 0} (a : A) (st : Store Cell) → NoBuffer st.pool → Starves (pure a st)
pure-Starves a st n = inr (a, st, refl, n)

pub lift-Starves :
    {A : Type 0} (r : Result A) (st : Store Cell) → NoBuffer st.pool → Starves (lift r st)
lift-Starves (err e) st n = inl (e, refl)
lift-Starves (ok a) st n = inr (a, st, refl, n)

pub bind-Starves :
    {A B : Type 0} (m : M A) (f : A → M B) (st : Store Cell)
    → Starves (m st)
    → ((a : A) (st' : Store Cell) → NoBuffer st'.pool → Starves (f a st'))
    → Starves ((m >>= f) st)
bind-Starves m f st (inl (e, h)) rest = inl (e, rw h refl)
bind-Starves m f st (inr (a, st', h, n)) rest = rw h (rest a st' n)

pub if-Starves :
    {A : Type 0} (test : Bool) {m k : Result (A × Store Cell)}
    → Starves m
    → Starves k
    → Starves (if test then m else k)
if-Starves true a b = a
if-Starves false a b = b

pub push_object-Starves :
    (x : Object) (st : Store Cell) → NoBuffer st.pool → Starves (push_object x st)
unfolding push_object
push_object-Starves x st n =
    elim (pool_push-GivesUp blank st (bytes x) n (omega (arith, length-bytes x, sizeof-le x))) [
      | inl f ↦ inl f
      | inr (answers, h) ↦
          inr (pool_invalid_handle, record { pool = st.pool; answers = answers }, h, n)
    ]

pub node_expression-Starves :
    (l r : Expression) (op : MathOp) (carry : Bool) (st : Store Cell)
    → NoBuffer st.pool
    → Starves (node_expression l op r carry st)
unfolding node_expression
node_expression-Starves l r op carry st n =
    bind-Starves (push_object (Object.expression l)) _ st (push_object-Starves _ st n) (λ a st1 n1.
      bind-Starves (push_object (Object.expression r)) _ st1 (push_object-Starves _ st1 n1)
        (λ b st2 n2. pure-Starves _ st2 n2))
