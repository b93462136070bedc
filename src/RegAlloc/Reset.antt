-- ===== src/RegAlloc/Reset.antt =====
-- `reg_reset` of src/regalloc.c, and what it does to the reserved registers.
use koshka.Base.{ℕ, ◌+◌, ◌^◌, ◌<◌, ◌≡◌, ◌≢◌, refl, ap, ◌∙◌, arith, List, [], ◌∷◌, some}
use native.Mathlib.Nat.{mod-eq_of_lt}
use koshka.Base.{false}
use koshka.RegAlloc.{RegState, reg_alloc, reg_reset, scan, settle, rsp_index}

abbrev pub after_alloc : RegState → ℕ → RegState
after_alloc st a = (reg_alloc st a).1

-- A table of sixteen that begins with the given ids, each stored one higher.
abbrev table4 : ℕ → ℕ → ℕ → ℕ → List ℕ
table4 w x y z = w ∷ x ∷ y ∷ z ∷ 0 ∷ 0 ∷ 0 ∷ 0 ∷ 0 ∷ 0 ∷ 0 ∷ 0 ∷ 0 ∷ 0 ∷ 0 ∷ 0 ∷ []

abbrev open_state : List ℕ → RegState
open_state taken = record { taken_gp = taken; full = false }

first_alloc :
    (a : ℕ)
    → a < 32
    → reg_alloc (open_state (table4 0 0 0 0)) a ≡ (some 0, open_state (table4 (a + 1) 0 0 0))
unfolding reg_alloc scan settle
first_alloc a h = ground (arith, mod-eq_of_lt {n = a + 1} {m = 2 ^ 8})

second_alloc :
    (a b : ℕ)
    → a < 32
    → b < 32
    → a ≢ b
    → reg_alloc (open_state (table4 (a + 1) 0 0 0)) b
      ≡ (some 1, open_state (table4 (a + 1) (b + 1) 0 0))
unfolding reg_alloc scan settle
second_alloc a b ha hb ab = ground (arith, mod-eq_of_lt {n = b + 1} {m = 2 ^ 8})

third_alloc :
    (a b c : ℕ)
    → a < 32
    → b < 32
    → c < 32
    → a ≢ c
    → b ≢ c
    → reg_alloc (open_state (table4 (a + 1) (b + 1) 0 0)) c
      ≡ (some 2, open_state (table4 (a + 1) (b + 1) (c + 1) 0))
unfolding reg_alloc scan settle
third_alloc a b c ha hb hc ac bc = ground (arith, mod-eq_of_lt {n = c + 1} {m = 2 ^ 8})

fourth_alloc :
    (a b c d : ℕ)
    → d < 32
    → a ≢ d
    → b ≢ d
    → c ≢ d
    → reg_alloc (open_state (table4 (a + 1) (b + 1) (c + 1) 0)) d
      ≡ (some 3, open_state (table4 (a + 1) (b + 1) (c + 1) (d + 1)))
unfolding reg_alloc scan settle
fourth_alloc a b c d hd ad bd cd = ground (arith, mod-eq_of_lt {n = d + 1} {m = 2 ^ 8})

fifth_alloc :
    (a b c d e : ℕ)
    → e < 32
    → a ≢ e
    → b ≢ e
    → c ≢ e
    → d ≢ e
    → (reg_alloc (open_state (table4 (a + 1) (b + 1) (c + 1) (d + 1))) e).0 ≡ some rsp_index
unfolding reg_alloc scan settle
fifth_alloc a b c d e he ae be ce de = ground (arith, mod-eq_of_lt {n = e + 1} {m = 2 ^ 8})

reset_table : (st : RegState) → reg_reset st ≡ open_state (table4 0 0 0 0)
unfolding reg_reset
reset_table st = refl

-- Five ids that are all different.
record Distinct (a b c d e : ℕ) : Type 0 where
  ab : a ≢ b
  ac : a ≢ c
  ad : a ≢ d
  ae : a ≢ e
  bc : b ≢ c
  bd : b ≢ d
  be : b ≢ e
  cd : c ≢ d
  ce : c ≢ e
  de : d ≢ e

-- After a reset RSP is no longer reserved: the fifth id that asks for a register gets it.
reg_reset-rsp :
    (st : RegState) (a b c d e : ℕ)
    → a < 32
    → b < 32
    → c < 32
    → d < 32
    → e < 32
    → Distinct a b c d e
    → (reg_alloc (after_alloc (after_alloc (after_alloc (after_alloc (reg_reset st) a) b) c) d) e).0
      ≡ some rsp_index
reg_reset-rsp st a b c d e ha hb hc hd he ne =
    ap (λ s0. (reg_alloc (after_alloc (after_alloc (after_alloc (after_alloc s0 a) b) c) d) e).0)
      (reset_table st)
    ∙ ap (λ r. (reg_alloc (after_alloc (after_alloc (after_alloc r.1 b) c) d) e).0)
        (first_alloc a ha)
    ∙ ap (λ r. (reg_alloc (after_alloc (after_alloc r.1 c) d) e).0) (second_alloc a b ha hb ne.ab)
    ∙ ap (λ r. (reg_alloc (after_alloc r.1 d) e).0) (third_alloc a b c ha hb hc ne.ac ne.bc)
    ∙ ap (λ r. (reg_alloc r.1 e).0) (fourth_alloc a b c d hd ne.ad ne.bd ne.cd)
    ∙ fifth_alloc a b c d e he ne.ae ne.be ne.ce ne.de
