-- ===== src/Iml/Yields.antt =====
-- Total correctness of a decoding step: from a pool with room it returns, keeps what was stored,
-- takes no more room than it says, and its result meets a postcondition in the new pool.
use koshka.Base.{ℕ, ◌+◌, ◌^◌, ◌≤◌, ◌<◌, ◌≡◌, refl, ap, sym, ◌∙◌, length, arith, true}
use koshka.Base.Result.{Result, ok}
use koshka.Pool.{Pool, Store, all_granted, pool_read}
use koshka.Pool.Laws.{IsValid, Keeps, Pushed}
use koshka.Pool.Push.{pool_push-Pushed}
use koshka.Iml.Objects.{
  Object, expression, instruction, Cell, blank, sizeof, bytes, length-bytes, assemble-bytes,
}
use koshka.Iml.Objects.{load, IsAt, push_object}
use koshka.Iml.Monad.{M, pure, ◌>>=◌}

-- The pool is valid and can take `n` more bytes without an overflow, and calloc does not fail.
pub record Ready (st : Store Cell) (n : ℕ) : Type 0 where
  pub valid : IsValid st.pool
  pub granted : all_granted st.answers ≡ true
  pub small : st.pool.alloc_size ≤ 2 ^ 31
  pub space : st.pool.pos + n ≤ 2 ^ 30

pub Ready-le : {st : Store Cell} {m : ℕ} (n : ℕ) → n ≤ m → Ready st m → Ready st n
Ready-le n h ready = record {
  valid = ready.valid;
  granted = ready.granted;
  small = ready.small;
  space = omega arith;
}

-- `q` is `p` with more in it.
pub record Extends (p q : Pool Cell) : Type 0 where
  pub grows : p.pos ≤ q.pos
  pub kept : Keeps p.pos p q

pub Extends-refl : (p : Pool Cell) → Extends p p
Extends-refl p = record { grows = omega arith; kept = λ h n k. refl }

pub Extends-trans : {p q r : Pool Cell} → Extends p q → Extends q r → Extends p r
Extends-trans e f = record {
  grows = omega arith;
  kept = λ h n k. f.kept h n (omega arith) ∙ e.kept h n k;
}

pub record Yields {A : Type 0} (st : Store Cell) (cost : ℕ) (Q : Pool Cell → A → Type 0)
    (r : Result (A × Store Cell)) : Type 0 where
  pub result : A
  pub after : Store Cell
  pub returns : r ≡ ok (result, after)
  pub valid : IsValid after.pool
  pub granted : all_granted after.answers ≡ true
  pub small : after.pool.alloc_size ≤ 2 ^ 31
  pub extends : Extends st.pool after.pool
  pub room : after.pool.pos ≤ st.pool.pos + cost
  pub holds : Q after.pool result

-- What is left of the room after a step.
pub Yields-Ready :
    {A : Type 0} {st : Store Cell} {cost : ℕ} {Q : Pool Cell → A → Type 0}
    {r : Result (A × Store Cell)} (n : ℕ) (y : Yields st cost Q r)
    → Ready st (cost + n)
    → Ready y.after n
Yields-Ready n y ready = record {
  valid = y.valid;
  granted = y.granted;
  small = y.small;
  space = omega arith;
}

pub pure-Yields :
    {A : Type 0} (a : A) (st : Store Cell) (Q : Pool Cell → A → Type 0)
    → Ready st 0
    → Q st.pool a
    → Yields st 0 Q (pure a st)
pure-Yields a st Q ready q = record {
  result = a;
  after = st;
  returns = refl;
  valid = ready.valid;
  granted = ready.granted;
  small = ready.small;
  extends = Extends-refl st.pool;
  room = omega arith;
  holds = q;
}

Yields-prepend :
    {A B : Type 0} {st : Store Cell} {c d : ℕ} {Q : Pool Cell → A → Type 0}
    {R : Pool Cell → B → Type 0} {r : Result (A × Store Cell)} {s : Result (B × Store Cell)}
    (first : Yields st c Q r)
    → Yields first.after d R s
    → Yields st (c + d) R s
Yields-prepend first second = record {
  result = second.result;
  after = second.after;
  returns = second.returns;
  valid = second.valid;
  granted = second.granted;
  small = second.small;
  extends = Extends-trans first.extends second.extends;
  room = omega arith;
  holds = second.holds;
}

-- Two steps in a row.
pub bind-Yields :
    {A B : Type 0} (m : M A) (f : A → M B) (st : Store Cell) (c d : ℕ) (Q : Pool Cell → A → Type 0)
    (R : Pool Cell → B → Type 0)
    → Ready st (c + d)
    → Yields st c Q (m st)
    → ((a : A) (st' : Store Cell)
        → Ready st' d
        → Extends st.pool st'.pool
        → Q st'.pool a
        → Yields st' d R (f a st'))
    → Yields st (c + d) R ((m >>= f) st)
bind-Yields m f st c d Q R ready first then_ = rw first.returns (
    Yields-prepend first
      (then_ first.result first.after (Yields-Ready d first ready) first.extends first.holds))

-- An object below the end of the pool stays where it is.
pub IsAt-Extends :
    {p q : Pool Cell} (h : ℕ) (x : Object)
    → h + sizeof x ≤ p.pos
    → Extends p q
    → IsAt p h x
    → IsAt q h x
unfolding load
IsAt-Extends h x below e at = rw (e.kept h (sizeof x) below) at

-- A pushed object stands at the handle that comes back.
abbrev pub Lands : ℕ → Object → Pool Cell → ℕ → Type 0
Lands old x p h = (h ≡ old) × IsAt p h x × (h + sizeof x ≤ p.pos)

Pushed-Yields :
    (x : Object) (st : Store Cell) {r : Result (ℕ × Store Cell)}
    → Ready st (sizeof x)
    → sizeof x ≤ 48
    → Pushed st.pool st.answers (bytes x) (length (bytes x)) r
    → Yields st (sizeof x) (Lands st.pool.pos x) r
unfolding load
Pushed-Yields x st ready size pushed = record {
  result = st.pool.pos;
  after = pushed.after;
  returns = pushed.returns;
  valid = pushed.valid;
  granted = pushed.grants ready.granted;
  small = omega (arith, pushed.bounded, length-bytes x);
  extends = record { grows = omega arith; kept = pushed.kept };
  room = omega (arith, length-bytes x);
  holds = (refl, at, omega (arith, length-bytes x));
}
  where
    at : IsAt pushed.after.pool st.pool.pos x
    at =
        rw
          (
            ap (pool_read pushed.after.pool st.pool.pos) (sym (length-bytes x)) ∙ pushed.stored,
            assemble-bytes x,
          )
          refl

pub sizeof-le : (x : Object) → (sizeof x ≤ 48) × (0 < sizeof x)
sizeof-le (expression e) = omega arith
sizeof-le (instruction i) = omega arith

pub push_object-Yields :
    (x : Object) (st : Store Cell)
    → Ready st (sizeof x)
    → Yields st (sizeof x) (Lands st.pool.pos x) (push_object x st)
unfolding push_object
push_object-Yields x st ready = Pushed-Yields x st ready (sizeof-le x).0 (
    pool_push-Pushed blank st ready.valid (bytes x) 0 (omega arith)
      (omega (arith, length-bytes x, sizeof-le x)) ready.granted)

-- A step that yields can be said to cost more than it does.
pub Yields-weaken :
    {A : Type 0} {st : Store Cell} {c : ℕ} {Q : Pool Cell → A → Type 0}
    {r : Result (A × Store Cell)} (d : ℕ)
    → c ≤ d
    → Yields st c Q r
    → Yields st d Q r
Yields-weaken d h y = record {
  result = y.result;
  after = y.after;
  returns = y.returns;
  valid = y.valid;
  granted = y.granted;
  small = y.small;
  extends = y.extends;
  room = omega arith;
  holds = y.holds;
}

-- A step that yields meets what its postcondition entails.
pub Yields-map :
    {A : Type 0} {st : Store Cell} {c : ℕ} {Q R : Pool Cell → A → Type 0}
    {r : Result (A × Store Cell)}
    → ((p : Pool Cell) (a : A) → Q p a → R p a)
    → Yields st c Q r
    → Yields st c R r
Yields-map f y = record {
  result = y.result;
  after = y.after;
  returns = y.returns;
  valid = y.valid;
  granted = y.granted;
  small = y.small;
  extends = y.extends;
  room = y.room;
  holds = f y.after.pool y.result y.holds;
}
