-- ===== src/RegAlloc/Scan.antt =====
-- What the loop of `reg_alloc` finds.
use koshka.Base.{ℕ, zero, suc, ◌+◌, ◌≤◌, ◌<◌, ◌==◌, ◌≡◌, ◌≢◌, ◌⊎◌, inl, inr, refl, arith}
use koshka.Base.{Bool-cases, ==_iff, ==_false, Option, none, some, List, get_or, set}
use native.Mathlib.Decide.{ℕ_discrete}
use koshka.RegAlloc.{scan}

-- Register `k` of the range is the first that is free or has the id; it has the id afterwards.
pub record Found (left i arm : ℕ) (taken : List ℕ) (r : Option (ℕ × List ℕ)) : Type 0 where
  pub at : ℕ
  pub after : List ℕ
  pub is : r ≡ some (at, after)
  pub from : i ≤ at
  pub below : at < i + left
  pub mapped :
      ((get_or taken at 0 ≡ arm) × (after ≡ taken))
      ⊎ ((get_or taken at 0 ≡ 0) × (after ≡ set taken at arm))
  pub first : (j : ℕ) → i ≤ j → j < at → (get_or taken j 0 ≢ 0) × (get_or taken j 0 ≢ arm)

-- Every register of the range belongs to another id.
abbrev pub AllTaken : ℕ → ℕ → ℕ → List ℕ → Type 0
AllTaken left i arm taken =
    (j : ℕ) → i ≤ j → j < i + left → (get_or taken j 0 ≢ 0) × (get_or taken j 0 ≢ arm)

-- At register `j` of a range that goes on after `i`.
here_or_later :
    (i arm j : ℕ) (taken : List ℕ)
    → get_or taken i 0 ≢ 0
    → get_or taken i 0 ≢ arm
    → (i + 1 ≤ j → (get_or taken j 0 ≢ 0) × (get_or taken j 0 ≢ arm))
    → i ≤ j
    → (get_or taken j 0 ≢ 0) × (get_or taken j 0 ≢ arm)
here_or_later i arm j taken used other later p = elim (ℕ_discrete i j) [
  | yes e ↦ rw (← e) (used, other)
  | no ne ↦ later (omega arith)
]

module _ (left i arm : ℕ) (taken : List ℕ) (used : get_or taken i 0 ≢ 0)
    (other : get_or taken i 0 ≢ arm) where
  Found-later :
      {r : Option (ℕ × List ℕ)} → Found left (i + 1) arm taken r → Found (suc left) i arm taken r
  Found-later f = record {
    at = f.at;
    after = f.after;
    is = f.is;
    from = omega arith;
    below = omega arith;
    mapped = f.mapped;
    first = λ j p q. here_or_later i arm j taken used other (λ k. f.first j k q) p;
  }

  AllTaken-later : AllTaken left (i + 1) arm taken → AllTaken (suc left) i arm taken
  AllTaken-later all j p q = here_or_later i arm j taken used other (λ k. all j k (omega arith)) p

Found-here :
    (left i arm : ℕ) (taken after : List ℕ)
    → ((get_or taken i 0 ≡ arm) × (after ≡ taken))
      ⊎ ((get_or taken i 0 ≡ 0) × (after ≡ set taken i arm))
    → Found (suc left) i arm taken (some (i, after))
Found-here left i arm taken after m = record {
  at = i;
  after = after;
  is = refl;
  from = omega arith;
  below = omega arith;
  mapped = m;
  first = λ j p q. absurd (omega arith);
}

pub scan_lem :
    (left i arm : ℕ) (taken : List ℕ)
    → Found left i arm taken (scan left i arm taken)
      ⊎ ((scan left i arm taken ≡ none) × AllTaken left i arm taken)
unfolding scan
scan_lem zero i arm taken = inr (refl, λ j p q. absurd (omega arith))
scan_lem (suc left) i arm taken = elim (Bool-cases (get_or taken i 0 == arm)) [
  | inl mine ↦ rw mine (inl (Found-here left i arm taken taken (inl ((==_iff _ _).0 mine, refl))))
  | inr other ↦ elim (Bool-cases (get_or taken i 0 == 0)) [
    | inl free ↦
        rw (other, free)
          (inl (Found-here left i arm taken (set taken i arm) (inr ((==_iff _ _).0 free, refl))))
    | inr used ↦
        rw (other, used)
          (elim (scan_lem left (i + 1) arm taken) [
            | inl f ↦ inl (Found-later left i arm taken (==_false used) (==_false other) f)
            | inr n ↦
                inr (n.0, AllTaken-later left i arm taken (==_false used) (==_false other) n.1)
          ])
  ]
]
