-- ===== src/RegAlloc/Safety.antt =====
-- What callers rely on: reserved registers are never handed out, and no register in use changes
-- hands.
use koshka.Base.{ℕ, ◌+◌, ◌<◌, ◌≡◌, ◌≢◌, ◌⊎◌, inl, inr, refl, ap, arith}
use koshka.Base.{true, false, Bool, Bool-cases, Option, none, some, List, get_or}
use native.Mathlib.Nat.{mod-eq_of_lt}
use koshka.Base.{◌^◌, get_or-set_self}
use koshka.RegAlloc.{RegState, scan, settle, reg_alloc}
use koshka.RegAlloc.{x86_gp_count}
use koshka.RegAlloc.Scan.{Found, AllTaken, scan_lem}
use koshka.RegAlloc.Sound.{IsSound, IsSound-set, is_reserved, unreserved, set_keeps}

-- What a successful request leaves: the register is one of the first 14 and not reserved, it carries
-- the id, the table is sound, and no register that was in use changes hands.
pub record Mapped (reserved : Bool) (taken : List ℕ) (arm_reg_id : ℕ) (r : Option ℕ × RegState)
    : Type 0 where
  pub at : ℕ
  pub found : r.0 ≡ some at
  pub general : at < 14
  pub not_reserved : is_reserved reserved at ≡ false
  pub carries : get_or r.1.taken_gp at 0 ≡ arm_reg_id + 1
  pub sound : IsSound reserved r.1.taken_gp
  pub open_ : r.1.full ≡ false
  pub keeps : (j : ℕ) → j < 14 → get_or taken j 0 ≢ 0 → get_or r.1.taken_gp j 0 ≡ get_or taken j 0

-- What a failed request leaves: no register was free or had the id, and the allocator is shut.
pub record Spilled (taken : List ℕ) (arm_reg_id : ℕ) (r : Option ℕ × RegState) : Type 0 where
  pub none_left : r.0 ≡ none
  pub shut : r.1.full ≡ true
  pub all_taken : AllTaken 14 0 (arm_reg_id + 1) taken

pub reg_alloc_open :
    (st : RegState) (arm_reg_id : ℕ)
    → st.full ≡ false
    → arm_reg_id < 254
    → reg_alloc st arm_reg_id
      ≡ settle st (arm_reg_id + 1) (scan x86_gp_count 0 (arm_reg_id + 1) st.taken_gp)
unfolding reg_alloc
reg_alloc_open st arm_reg_id h small = simp h (
    ap (λ t. settle st t (scan x86_gp_count 0 t st.taken_gp))
      (mod-eq_of_lt {n = arm_reg_id + 1} {m = 2 ^ 8} (omega arith)))

module _ (reserved : Bool) (st : RegState) (arm_reg_id : ℕ) (s : IsSound reserved st.taken_gp)
    (is_open : st.full ≡ false) (small : arm_reg_id < 254) where
  -- A register that carries the id has no mark.
  in_use : (at : ℕ) → get_or st.taken_gp at 0 ≡ arm_reg_id + 1 → is_reserved reserved at ≡ false
  in_use at carries = elim (Bool-cases (is_reserved reserved at)) [
    | inl marked ↦ absurd (omega (arith, s.marked at marked))
    | inr general ↦ general
  ]

  Found-Mapped :
      (r : Option (ℕ × List ℕ))
      → Found 14 0 (arm_reg_id + 1) st.taken_gp r
      → Mapped reserved st.taken_gp arm_reg_id (settle st (arm_reg_id + 1) r)
  unfolding settle
  Found-Mapped r f = elim f.mapped [
    | inl old ↦
        rw (f.is, old.1)
          (record {
            at = f.at;
            found = refl;
            general = omega arith;
            not_reserved = in_use f.at old.0;
            carries = old.0;
            sound = s;
            open_ = is_open;
            keeps = λ j h used. refl;
          })
    | inr new ↦
        rw (f.is, new.1)
          (record {
            at = f.at;
            found = refl;
            general = omega arith;
            not_reserved =
                unreserved reserved st.taken_gp f.at (arm_reg_id + 1) s (omega arith) new.0
                  (omega arith) (omega arith) f.first;
            carries = get_or-set_self st.taken_gp f.at (arm_reg_id + 1) 0 (omega (arith, s.size));
            sound =
                IsSound-set reserved st.taken_gp f.at (arm_reg_id + 1) s (omega arith) new.0
                  (omega arith) (omega arith) f.first;
            open_ = is_open;
            keeps =
                set_keeps reserved st.taken_gp f.at (arm_reg_id + 1) s (omega arith) new.0
                  (omega arith) (omega arith) f.first;
          })
  ]

  -- From a sound table of an allocator that is not full, a request for an id below 254 is served by
  -- one of the first 14 registers, not one that is reserved, which then belongs to the id, with the
  -- table sound and no register in use changed; or each of the 14 is in use, none by the id, the
  -- result is -1 and the allocator is full.
  pub reg_alloc_lem :
      Mapped reserved st.taken_gp arm_reg_id (reg_alloc st arm_reg_id)
      ⊎ Spilled st.taken_gp arm_reg_id (reg_alloc st arm_reg_id)
  unfolding settle
  reg_alloc_lem =
      rw (reg_alloc_open st arm_reg_id is_open small)
        (elim (scan_lem 14 0 (arm_reg_id + 1) st.taken_gp) [
          | inl f ↦ inl (Found-Mapped (scan 14 0 (arm_reg_id + 1) st.taken_gp) f)
          | inr n ↦ inr (rw n.0 (record { none_left = refl; shut = refl; all_taken = n.1 }))
        ])
