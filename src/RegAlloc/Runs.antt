-- ===== src/RegAlloc/Runs.antt =====
-- Requests and resets in any number from the start of the program on.
use koshka.Base.{ℕ, ◌+◌, ◌<◌, ◌≡◌, ◌⊎◌, inl, inr, refl, sym, ◌∙◌, ap, arith}
use koshka.Base.{Bool, true, false, Option, none, some, List, [], ◌∷◌, get_or}
use mathlib.Core.Path.{subst, subst₂}
use mathlib.Core.List.{Memᴰ}
use mathlib.Core.List.Memᴰ
use koshka.RegAlloc.{RegState, initial, reg_alloc, reg_reset}
use koshka.RegAlloc.Sound.{IsSound, is_reserved, initial-IsSound, reg_reset-IsSound}
use koshka.RegAlloc.Safety.{Mapped, reg_alloc_lem}

-- The requests that were served since the last reset, the latest first: the id and the register it was given.
abbrev pub Served : Type 0
Served = List (ℕ × ℕ)

-- A run of requests, for ids below 254, and resets, that ends in the state. RSP and RBP are reserved
-- until the first reset.
pub data Run : Bool → Served → RegState → Type 0 where
  start : Run true [] initial
  serve :
      {reserved : Bool} {given : Served} {st st' : RegState} (id at : ℕ)
      → Run reserved given st
      → id < 254
      → reg_alloc st id ≡ (some at, st')
      → Run reserved ((id, at) ∷ given) st'
  refuse :
      {reserved : Bool} {given : Served} {st st' : RegState} (id : ℕ)
      → Run reserved given st
      → id < 254
      → reg_alloc st id ≡ (none, st')
      → Run reserved given st'
  reset :
      {reserved : Bool} {given : Served} {st : RegState}
      → Run reserved given st
      → Run false [] (reg_reset st)

-- The registers handed out since the last reset: of the first 14, not reserved, one for each id.
pub record IsAssignment (reserved : Bool) (given : Served) : Type 0 where
  pub general : (g : ℕ × ℕ) → Memᴰ g given → (g.1 < 14) × (is_reserved reserved g.1 ≡ false)
  pub same_register : (g h : ℕ × ℕ) → Memᴰ g given → Memᴰ h given → g.0 ≡ h.0 → g.1 ≡ h.1
  pub same_id : (g h : ℕ × ℕ) → Memᴰ g given → Memᴰ h given → g.1 ≡ h.1 → g.0 ≡ h.0

-- The table carries an id that was served.
record IsCarried (reserved : Bool) (st : RegState) (g : ℕ × ℕ) : Type 0 where
  small : g.0 < 254
  general : (g.1 < 14) × (is_reserved reserved g.1 ≡ false)
  entry : get_or st.taken_gp g.1 0 ≡ g.0 + 1

-- While the allocator is open its table carries every id that was served.
record Carries (reserved : Bool) (given : Served) (st : RegState) : Type 0 where
  open_ : st.full ≡ false
  sound : IsSound reserved st.taken_gp
  carried : (g : ℕ × ℕ) → Memᴰ g given → IsCarried reserved st g

Carries-IsAssignment :
    {reserved : Bool} {given : Served} {st : RegState}
    → Carries reserved given st
    → IsAssignment reserved given
Carries-IsAssignment {reserved} {st = st} c = record {
  general = λ g m. (c.carried g m).general;
  same_register = λ g h a b e. same g h (c.carried g a) (c.carried h b) e;
  same_id = λ g h a b e.
      omega
        (arith, (c.carried g a).entry, (c.carried h b).entry, ap (λ t. get_or st.taken_gp t 0) e);
}
  where
    same : (g h : ℕ × ℕ) → IsCarried reserved st g → IsCarried reserved st h → g.0 ≡ h.0 → g.1 ≡ h.1
    same g h a b e =
        c.sound.apart g.1 h.1 a.general.0 b.general.0 (omega (arith, a.entry))
          (omega (arith, a.entry, a.small)) (omega (arith, a.entry, b.entry))

-- A request that is served leaves the earlier ones where they are.
Mapped-Carries :
    {reserved : Bool} {given : Served} {st : RegState} {r : Option ℕ × RegState} (id : ℕ)
    → id < 254
    → Carries reserved given st
    → (m : Mapped reserved st.taken_gp id r) → Carries reserved ((id, m.at) ∷ given) r.1
Mapped-Carries {reserved} {given} {st} {r} id small c m = record {
  open_ = m.open_;
  sound = m.sound;
  carried = λ g i. elim (Memᴰ.cases_cons i) [
    | inl e ↦ subst (IsCarried reserved r.1) (sym e) latest
    | inr j ↦ kept g (c.carried g j)
  ];
}
  where
    latest : IsCarried reserved r.1 (id, m.at)
    latest = record { small = small; general = (m.general, m.not_reserved); entry = m.carries }

    kept : (g : ℕ × ℕ) → IsCarried reserved st g → IsCarried reserved r.1 g
    kept g a = record {
      small = a.small;
      general = a.general;
      entry = m.keeps g.1 a.general.0 (omega (arith, a.entry)) ∙ a.entry;
    }

-- Between two requests the table carries what was served, or the allocator is shut for good.
abbrev Holds : Bool → Served → RegState → Type 0
Holds reserved given st =
    Carries reserved given st ⊎ ((st.full ≡ true) × IsAssignment reserved given)

reg_alloc_shut : (st : RegState) (id : ℕ) → st.full ≡ true → reg_alloc st id ≡ (none, st)
unfolding reg_alloc
reg_alloc_shut st id h = simp h refl

some-inj : {a b : ℕ} → ◌≡◌ {A = Option ℕ} (some a) (some b) → a ≡ b
some-inj e = cc

none≢some : {a : ℕ} → ◌≡◌ {A = Option ℕ} none (some a) → ⊥
none≢some e = cc

serve-Holds :
    {reserved : Bool} {given : Served} {st st' : RegState} (id at : ℕ)
    → id < 254
    → reg_alloc st id ≡ (some at, st')
    → Holds reserved given st
    → Holds reserved ((id, at) ∷ given) st'
serve-Holds {reserved} {given} {st} {st'} id at small e (inr shut) =
    absurd (none≢some (ap (λ r. r.0) (sym (reg_alloc_shut st id shut.0) ∙ e)))
serve-Holds {reserved} {given} {st} {st'} id at small e (inl c) =
    elim (reg_alloc_lem reserved st id c.sound c.open_ small) [
      | inr n ↦ absurd (none≢some (sym n.none_left ∙ ap (λ r. r.0) e))
      | inl m ↦ inl (
          subst₂ (λ a s. Carries reserved ((id, a) ∷ given) s)
            (some-inj (sym m.found ∙ ap (λ r. r.0) e)) (ap (λ r. r.1) e)
            (Mapped-Carries id small c m))
    ]

refuse-Holds :
    {reserved : Bool} {given : Served} {st st' : RegState} (id : ℕ)
    → id < 254
    → reg_alloc st id ≡ (none, st')
    → Holds reserved given st
    → Holds reserved given st'
refuse-Holds {reserved} {st = st} id small e (inr shut) = inr (
  ap (λ s. s.full) (sym (ap (λ r. r.1) e) ∙ ap (λ r. r.1) (reg_alloc_shut st id shut.0)) ∙ shut.0,
  shut.1,
)
refuse-Holds {reserved} {st = st} id small e (inl c) =
    elim (reg_alloc_lem reserved st id c.sound c.open_ small) [
      | inr n ↦ inr (ap (λ s. s.full) (sym (ap (λ r. r.1) e)) ∙ n.shut, Carries-IsAssignment c)
      | inl m ↦ absurd (none≢some (sym (ap (λ r. r.0) e) ∙ m.found))
    ]

-- Before the first request, or after a reset.
none_served :
    {reserved : Bool} {st : RegState}
    → st.full ≡ false
    → IsSound reserved st.taken_gp
    → Holds reserved [] st
none_served shut sound =
    inl (record { open_ = shut; sound = sound; carried = λ g m. absurd (Memᴰ.not-nil m) })

Run-Holds :
    {reserved : Bool} {given : Served} {st : RegState}
    → Run reserved given st
    → Holds reserved given st
unfolding reg_reset
Run-Holds start = none_served refl initial-IsSound
Run-Holds (serve id at run small e) = serve-Holds id at small e (Run-Holds run)
Run-Holds (refuse id run small e) = refuse-Holds id small e (Run-Holds run)
Run-Holds (reset {st = st} run) = none_served refl (reg_reset-IsSound st)

-- However many requests, for ids below 254, and resets there have been since the start of the
-- program: every register that was handed out since the last reset is one of the first 14, and before
-- the first reset neither RSP nor RBP, and two requests that were served since the last reset were
-- given the same register if and only if they were for the same id.
pub Run-IsAssignment :
    {reserved : Bool} {given : Served} {st : RegState}
    → Run reserved given st
    → IsAssignment reserved given
Run-IsAssignment run = elim (Run-Holds run) [ inl c ↦ Carries-IsAssignment c | inr shut ↦ shut.1 ]
