-- ===== src/RegAlloc/Again.antt =====
-- What an allocator that is not full does with ids that have a register, and with two ids.
use koshka.Base.{ℕ, ◌+◌, ◌<◌, ◌≡◌, ◌≢◌, inl, inr, refl, sym, ◌∙◌, ap, arith}
use koshka.Base.{false, Bool, Bool-cases, Option, none, some, List, get_or}
use koshka.RegAlloc.{RegState, scan, settle, reg_alloc}
use koshka.RegAlloc.Scan.{Found, scan_lem}
use koshka.RegAlloc.Sound.{IsSound, is_reserved}
use koshka.RegAlloc.Safety.{Mapped, reg_alloc_open, reg_alloc_lem}

-- A second request for the same id gives the same register and changes nothing.
module _ (reserved : Bool) (taken : List ℕ) (arm at : ℕ) (s : IsSound reserved taken) (nz : arm ≢ 0)
    (nff : arm ≢ 0xFF) (small : at < 14) (carries : get_or taken at 0 ≡ arm) where
  in_use : is_reserved reserved at ≡ false
  in_use = elim (Bool-cases (is_reserved reserved at)) [
    | inl marked ↦ absurd (nff (sym carries ∙ s.marked at marked))
    | inr general ↦ general
  ]

  Found-again : (r : Option (ℕ × List ℕ)) → Found 14 0 arm taken r → r ≡ some (at, taken)
  Found-again r f = elim f.mapped [
    | inl old ↦ rw (f.is, old.1) (ap (λ k. some (k, taken)) (same old.0))
    | inr new ↦ absurd (clash new.0)
  ]
    where
      same : get_or taken f.at 0 ≡ arm → f.at ≡ at
      same e = ground (arith, s.apart f.at at)

      clash : get_or taken f.at 0 ≡ 0 → ⊥
      clash e = ground (arith, s.packed f.at at, f.first at, in_use)

  scan-again : scan 14 0 arm taken ≡ some (at, taken)
  scan-again = elim (scan_lem 14 0 arm taken) [
    | inl f ↦ Found-again (scan 14 0 arm taken) f
    | inr n ↦ absurd ((n.1 at (omega arith) (omega arith)).1 carries)
  ]

settle-some : (st : RegState) (arm at : ℕ) → settle st arm (some (at, st.taken_gp)) ≡ (some at, st)
unfolding settle
settle-some st arm at = refl

-- An id that has a register keeps getting it, whatever was allocated in between, until the
-- allocator is full.
reg_alloc_again :
    (reserved : Bool) (st : RegState) (arm_reg_id at : ℕ)
    → IsSound reserved st.taken_gp
    → st.full ≡ false
    → arm_reg_id < 254
    → at < 14
    → get_or st.taken_gp at 0 ≡ arm_reg_id + 1
    → reg_alloc st arm_reg_id ≡ (some at, st)
reg_alloc_again reserved st arm_reg_id at s is_open small below carries =
    reg_alloc_open st arm_reg_id is_open small
    ∙ ap (settle st (arm_reg_id + 1)) (
        scan-again reserved st.taken_gp (arm_reg_id + 1) at s (omega arith) (omega arith) below
          carries)
    ∙ settle-some st (arm_reg_id + 1) at

Mapped-apart :
    (reserved : Bool) (taken : List ℕ) (a b : ℕ) (r : Option ℕ × RegState) (q : Option ℕ × RegState)
    → a ≢ b
    → (m : Mapped reserved taken a r) (n : Mapped reserved r.1.taken_gp b q) → m.at ≢ n.at
Mapped-apart reserved taken a b r q ne m n e = ne (
    omega (
      arith,
      m.keeps m.at m.general,
      n.keeps m.at m.general (omega (arith, m.carries)),
      m.carries,
      n.carries,
      ap (λ t. get_or q.1.taken_gp t 0) e,
    ))

-- Two ids that are both served get two registers.
reg_alloc_apart :
    (reserved : Bool) (st : RegState) (a b i j : ℕ)
    → IsSound reserved st.taken_gp
    → st.full ≡ false
    → a < 254
    → b < 254
    → a ≢ b
    → (reg_alloc st a).0 ≡ some i
    → (reg_alloc (reg_alloc st a).1 b).0 ≡ some j
    → i ≢ j
reg_alloc_apart reserved st a b i j s is_open ha hb ne ea eb =
    elim (reg_alloc_lem reserved st a s is_open ha) [
      | inl m ↦ elim (reg_alloc_lem reserved (reg_alloc st a).1 b m.sound m.open_ hb) [
        | inl n ↦ λ e.
            Mapped-apart reserved st.taken_gp a b (reg_alloc st a) (reg_alloc (reg_alloc st a).1 b)
              ne m n (some_at m.found ea ∙ e ∙ sym (some_at n.found eb))
        | inr n ↦ absurd (none_at n.none_left eb)
      ]
      | inr m ↦ absurd (none_at m.none_left ea)
    ]
  where
    some_at : {o : Option ℕ} {x y : ℕ} → o ≡ some x → o ≡ some y → x ≡ y
    some_at p q = cc

    none_at : {o : Option ℕ} {y : ℕ} → o ≡ none → o ≡ some y → ⊥
    none_at p q = cc
