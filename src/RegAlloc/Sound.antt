-- ===== src/RegAlloc/Sound.antt =====
-- What the table of `reg_alloc` is like between two requests.
use koshka.Base.{ℕ, ◌≤◌, ◌<◌, ◌==◌, if◌then◌else◌, ◌≡◌, ◌≢◌, refl, sym, ap, ◌∙◌, arith, ◌&&◌, ◌||◌}
use koshka.Base.{Bool, Bool-cases, inl, inr, true, false, List, length, get_or, set}
use koshka.Base.{length-set, get_or-set_self, get_or-set_ne, get_or-replicate, replicate}
use koshka.Base.{true≢false}
use native.Mathlib.Decide.{ℕ_discrete}
use koshka.RegAlloc.{RegState, initial, reg_reset, rsp_index, rbp_index}

-- RSP and RBP are reserved from the start of the program on, until the first reset.
abbrev pub is_reserved : Bool → ℕ → Bool
is_reserved reserved j = reserved && ((j == rsp_index) || (j == rbp_index))

-- The table has its sixteen entries, reserved registers are marked, a register that is in use
-- belongs to one id, and registers are taken from the first on.
pub record IsSound (reserved : Bool) (taken : List ℕ) : Type 0 where
  pub size : length taken ≡ 16
  pub marked : (j : ℕ) → is_reserved reserved j ≡ true → get_or taken j 0 ≡ 0xFF
  pub apart :
      (i j : ℕ)
      → i < 14
      → j < 14
      → get_or taken i 0 ≢ 0
      → get_or taken i 0 ≢ 0xFF
      → get_or taken i 0 ≡ get_or taken j 0
      → i ≡ j
  pub packed :
      (i j : ℕ)
      → i < j
      → j < 14
      → is_reserved reserved j ≡ false
      → get_or taken j 0 ≢ 0
      → get_or taken i 0 ≢ 0

pub get_or-set :
    (taken : List ℕ) (at arm j : ℕ)
    → at < length taken
    → get_or (set taken at arm) j 0 ≡ (if j == at then arm else get_or taken j 0)
get_or-set taken at arm j h =
    ground (arith, get_or-set_self taken at arm 0, get_or-set_ne taken at j arm 0)

-- The first free register, given to an id that has none.
module _ (reserved : Bool) (taken : List ℕ) (at arm : ℕ) (s : IsSound reserved taken)
    (small : at < 14) (free : get_or taken at 0 ≡ 0) (nz : arm ≢ 0) (nff : arm ≢ 0xFF)
    (first : (j : ℕ) → 0 ≤ j → j < at → (get_or taken j 0 ≢ 0) × (get_or taken j 0 ≢ arm)) where
  -- A register in use that is not reserved stands before the first free one.
  used_before : (j : ℕ) → j < 14 → get_or taken j 0 ≢ 0 → is_reserved reserved j ≡ false → j < at
  used_before j h used a = ground (arith, s.packed at j)

  fresh : (j : ℕ) → j < 14 → get_or taken j 0 ≢ arm
  fresh j h = elim (Bool-cases (is_reserved reserved j)) [
    | inl marked ↦ λ e. nff (sym e ∙ s.marked j marked)
    | inr general ↦ λ e. (first j (omega arith) (used_before j h (λ z. nz (sym e ∙ z)) general)).1 e
  ]

  pub unreserved : is_reserved reserved at ≡ false
  unreserved = elim (Bool-cases (is_reserved reserved at)) [
    | inl marked ↦ absurd (omega (arith, s.marked at marked))
    | inr general ↦ general
  ]

  pub IsSound-set : IsSound reserved (set taken at arm)
  IsSound-set = record {
    size = length-set taken at arm ∙ s.size;
    marked = λ j m. elim (ℕ_discrete j at) [
      | yes e ↦ absurd (true≢false (sym m ∙ ap (is_reserved reserved) e ∙ unreserved))
      | no ne ↦ get_or-set_ne taken at j arm 0 (λ e. ne (sym e)) ∙ s.marked j m
    ];
    apart = λ i j hi hj ui ni same. ground (
      arith,
      get_or-set taken at arm i,
      get_or-set taken at arm j,
      s.apart i j,
      fresh i hi,
      fresh j hj,
      s.size,
    );
    packed = λ i j below hj a used. ground (
      arith,
      get_or-set taken at arm i,
      get_or-set taken at arm j,
      s.packed i j,
      used_before j hj,
      first i,
      s.size,
    );
  }

  pub set_keeps :
      (j : ℕ) → j < 14 → get_or taken j 0 ≢ 0 → get_or (set taken at arm) j 0 ≡ get_or taken j 0
  set_keeps j h used = ground (arith, get_or-set taken at arm j, s.size)

pub get_or-initial :
    (i : ℕ)
    → i < 14
    → get_or initial.taken_gp i 0 ≡ (if i == 5 then 0xFF else if i == 4 then 0xFF else 0)
get_or-initial i h = ground (
  arith,
  get_or-set (set (replicate 16 0) 4 0xFF) 5 0xFF i,
  get_or-set (replicate 16 0) 4 0xFF i,
  get_or-replicate {A = ℕ} 16 i 0 0,
)

-- The table that the program starts with is sound.
pub initial-IsSound : IsSound true initial.taken_gp
initial-IsSound = record {
  size = refl;
  marked = λ j m. ground arith;
  apart = λ i j hi hj used general same. ground (arith, get_or-initial i);
  packed = λ i j below hj a used. ground (arith, get_or-initial j);
}

-- The table after a reset is sound, with nothing reserved.
pub reg_reset-IsSound : (st : RegState) → IsSound false (reg_reset st).taken_gp
unfolding reg_reset
reg_reset-IsSound st = record {
  size = refl;
  marked = λ j m. ground arith;
  apart = λ i j hi hj used general same.
      absurd (used (get_or-replicate {A = ℕ} 16 i 0 0 (omega arith)));
  packed = λ i j below hj a used. absurd (used (get_or-replicate {A = ℕ} 16 j 0 0 (omega arith)));
}
