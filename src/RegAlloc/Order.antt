-- ===== src/RegAlloc/Order.antt =====
-- The allocator as a list: the ids in the order in which they first asked for a register.
use mathlib.Core.Option
use koshka.Base.{ℕ, zero, suc, ◌+◌, ◌-◌, ltb, leb, ◌<◌, ◌==◌, if◌then◌else◌, ◌≡◌, ◌≢◌, refl, arith}
use koshka.Base.{Bool, true, false, Bool-cases, inl, inr, ==_iff, Option, none, some}
use koshka.Base.{List, [], ◌∷◌, ◌++◌, length, get_or}
use koshka.RegAlloc.{rsp_index}
use koshka.RegAlloc.Sound.{is_reserved}

-- How many ids can have a register at once.
abbrev pub capacity : Bool → ℕ
capacity true = 12
capacity false = 14

-- The register of the id in place `k`. The two that can be reserved are next to each other.
abbrev pub slot : Bool → ℕ → ℕ
slot true k = if leb rsp_index k then k + 2 else k
slot false k = k

-- The first place of an id.
abbrev pub position : List ℕ → ℕ → Option ℕ
position [] id = none
position (a ∷ rest) id = if a == id then some 0 else Option.map suc (position rest id)

-- Whether RSP and RBP are reserved, the ids that have a register, and whether one was refused.
pub record Order : Type 0 where
  pub reserved : Bool
  pub ids : List ℕ
  pub full : Bool

-- An id that has a register gets it again, a new one the next register, if there is one. Once a
-- request was refused all are.
abbrev pub place : Order → ℕ → Option ℕ → Option ℕ × Order
place o id (some k) = (some (slot o.reserved k), o)
place o id none =
    if ltb (length o.ids) (capacity o.reserved)
    then (some (slot o.reserved (length o.ids)), record o { ids = o.ids ++ id ∷ [] })
    else (none, record o { full = true })

abbrev pub ask : Order → ℕ → Option ℕ × Order
ask o id = if o.full then (none, o) else place o id (position o.ids id)

-- The order at the start of the program, and after a reset.
abbrev pub nobody : Bool → Order
nobody reserved = record { reserved = reserved; ids = []; full = false }

-- A call of the allocator.
pub data Command : Type 0 where
  request : (id : ℕ) → Command
  reset : Command

abbrev pub IdsBelow : ℕ → List Command → Type 0
IdsBelow n [] = Unit
IdsBelow n (Command.request id ∷ rest) = (id < n) × IdsBelow n rest
IdsBelow n (Command.reset ∷ rest) = IdsBelow n rest

-- What the allocator should return to each request, by the order of the ids.
abbrev pub expected : Order → List Command → List (Option ℕ)
expected o [] = []
expected o (Command.request id ∷ rest) = (ask o id).0 ∷ expected ((ask o id).1) rest
expected o (Command.reset ∷ rest) = expected (nobody false) rest

pub slot-small : (reserved : Bool) (k : ℕ) → k < capacity reserved → slot reserved k < 14
slot-small true k h = ground arith
slot-small false k h = ground arith

pub slot-below : (reserved : Bool) (i k : ℕ) → i < k → slot reserved i < slot reserved k
slot-below true i k h = ground arith
slot-below false i k h = h

pub slot-unreserved : (reserved : Bool) (k : ℕ) → is_reserved reserved (slot reserved k) ≡ false
slot-unreserved true k = ground arith
slot-unreserved false k = refl

-- Every register that is not reserved has a place.
pub slot-of :
    (reserved : Bool) (at : ℕ)
    → at < 14
    → is_reserved reserved at ≡ false
    → (k : ℕ) × (k < capacity reserved) × (slot reserved k ≡ at)
slot-of true at h general = elim (Bool-cases (leb rsp_index at)) [
  | inl above ↦ (at - 2, ground arith, ground arith)
  | inr below ↦ (at, ground arith, ground arith)
]
slot-of false at h general = (at, h, refl)

pub position-first :
    (ids : List ℕ) (k id : ℕ)
    → k < length ids
    → get_or ids k 0 ≡ id
    → ((j : ℕ) → j < k → get_or ids j 0 ≢ id)
    → position ids id ≡ some k
position-first [] k id h e before = absurd (omega arith)
position-first (a ∷ rest) zero id h e before = ground arith
position-first (a ∷ rest) (suc k) id h e before = elim (Bool-cases (a == id)) [
  | inl same ↦ absurd (before 0 (omega arith) ((==_iff a id).0 same))
  | inr other ↦
      rw (other, position-first rest k id (omega arith) e (λ j l. before (suc j) (omega arith)))
        refl
]

pub position-absent :
    (ids : List ℕ) (id : ℕ)
    → ((j : ℕ) → j < length ids → get_or ids j 0 ≢ id)
    → position ids id ≡ none
position-absent [] id absent = refl
position-absent (a ∷ rest) id absent = elim (Bool-cases (a == id)) [
  | inl same ↦ absurd (absent 0 (omega arith) ((==_iff a id).0 same))
  | inr other ↦ rw (other, position-absent rest id (λ j l. absent (suc j) (omega arith))) refl
]
