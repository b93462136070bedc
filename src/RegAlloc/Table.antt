-- ===== src/RegAlloc/Table.antt =====
-- The table of registers keeps the order of the ids.
use koshka.Base.{
  ℕ, zero, suc, ◌+◌, ltb, ◌<◌, ◌≤◌, ◌==◌, if◌then◌else◌, ◌≡◌, ◌≢◌, refl, ap, sym, ◌∙◌, arith,
}
use koshka.Base.{Bool, true, false, Bool-cases, inl, inr, ◌⊎◌, Option, none}
use koshka.Base.{
  List, [], ◌∷◌, ◌++◌, length, get_or, set, length-append, length-set, lt→ltb, get_or-set_ne,
}
use koshka.RegAlloc.{RegState, settle}
use koshka.RegAlloc.Scan.{Found, AllTaken}
use koshka.RegAlloc.Sound.{is_reserved, get_or-set}
use koshka.Base.{true≢false}
use koshka.RegAlloc.Order.{Order, capacity, slot, position, place}
use koshka.RegAlloc.Order.{
  slot-small, slot-below, slot-unreserved, slot-of, position-first, position-absent,
}

-- What the register in place `k` holds: its id, stored one higher, or 0.
abbrev pub entry : List ℕ → ℕ → ℕ
entry ids k = if ltb k (length ids) then get_or ids k 0 + 1 else 0

pub record Table (reserved : Bool) (ids taken : List ℕ) : Type 0 where
  pub size : length taken ≡ 16
  pub marked : (j : ℕ) → is_reserved reserved j ≡ true → get_or taken j 0 ≡ 0xFF
  pub few : length ids ≤ capacity reserved
  pub entries : (k : ℕ) → k < capacity reserved → get_or taken (slot reserved k) 0 ≡ entry ids k

-- Once the allocator is full its table is not looked at again.
pub record Refines (o : Order) (st : RegState) : Type 0 where
  pub same_full : st.full ≡ o.full
  pub table : o.full ≡ false → Table o.reserved o.ids st.taken_gp

pub record Agrees (a : Option ℕ × Order) (r : Option ℕ × RegState) : Type 0 where
  pub answer : r.0 ≡ a.0
  pub state : Refines a.1 r.1

get_or-append :
    (ids : List ℕ) (id k : ℕ)
    → get_or (ids ++ id ∷ []) k 0
      ≡ (if ltb k (length ids) then get_or ids k 0 else if k == length ids then id else 0)
get_or-append [] id zero = refl
get_or-append [] id (suc k) = ground arith
get_or-append (a ∷ ids) id zero = ground arith
get_or-append (a ∷ ids) id (suc k) = ground (arith, get_or-append ids id k)

module _ (reserved : Bool) (ids taken : List ℕ) (t : Table reserved ids taken) (id : ℕ)
    (small : id < 254) where
  -- A register before the one that the loop finds carries an id, not this one.
  carries_other :
      (i : ℕ)
      → i < capacity reserved
      → (get_or taken (slot reserved i) 0 ≢ 0) × (get_or taken (slot reserved i) 0 ≢ id + 1)
      → (i < length ids) × (get_or ids i 0 ≢ id)
  carries_other i h p = ground (arith, t.entries i h)

  unmarked :
      (at : ℕ)
      → (get_or taken at 0 ≡ id + 1) ⊎ (get_or taken at 0 ≡ 0)
      → is_reserved reserved at ≡ false
  unmarked at p = elim (Bool-cases (is_reserved reserved at)) [
    | inl marked ↦ absurd (ground (arith, t.marked at marked))
    | inr general ↦ general
  ]

  before :
      (r : Option (ℕ × List ℕ)) (f : Found 14 0 (id + 1) taken r) (k : ℕ)
      → k < capacity reserved
      → slot reserved k ≡ f.at
      → (i : ℕ) → i < k
      → (i < length ids) × (get_or ids i 0 ≢ id)
  before r f k h e i l =
      carries_other i (omega arith)
        (f.first (slot reserved i) (omega arith) (omega (arith, e, slot-below reserved i k l)))

  -- The next register, given to the id.
  Table-set :
      length ids < capacity reserved
      → Table reserved (ids ++ id ∷ []) (set taken (slot reserved (length ids)) (id + 1))
  Table-set room = record {
    size = length-set taken (slot reserved (length ids)) (id + 1) ∙ t.size;
    marked = λ j m.
        get_or-set_ne taken (slot reserved (length ids)) j (id + 1) 0 (λ e.
          true≢false
            (sym m ∙ ap (is_reserved reserved) (sym e) ∙ slot-unreserved reserved (length ids)))
        ∙ t.marked j m;
    few = omega (arith, length-append ids (id ∷ []));
    entries = λ k h. ground (
      arith,
      get_or-set taken (slot reserved (length ids)) (id + 1) (slot reserved k),
      get_or-append ids id k,
      length-append ids (id ∷ []),
      t.entries k h,
      slot-below reserved k (length ids),
      slot-below reserved (length ids) k,
      slot-small reserved (length ids) room,
      t.size,
    );
  }

  old-Agrees :
      (r : Option (ℕ × List ℕ)) (f : Found 14 0 (id + 1) taken r) (k : ℕ)
      → k < capacity reserved
      → slot reserved k ≡ f.at
      → get_or taken f.at 0 ≡ id + 1
      → f.after ≡ taken
      → Agrees
          (place (record { reserved = reserved; ids = ids; full = false }) id (position ids id))
          (settle (record { taken_gp = taken; full = false }) (id + 1) r)
  unfolding settle
  old-Agrees r f k h e mine same =
      let here : (k < length ids) × (get_or ids k 0 ≡ id) =
        ground (arith, t.entries k h, ap (λ a. get_or taken a 0) e) in
      rw (position-first ids k id here.0 here.1 (λ i l. (before r f k h e i l).1), f.is, same, ← e)
        (record { answer = refl; state = record { same_full = refl; table = λ o. t } })

  new-Agrees :
      (r : Option (ℕ × List ℕ)) (f : Found 14 0 (id + 1) taken r) (k : ℕ)
      → k < capacity reserved
      → slot reserved k ≡ f.at
      → get_or taken f.at 0 ≡ 0
      → f.after ≡ set taken f.at (id + 1)
      → Agrees
          (place (record { reserved = reserved; ids = ids; full = false }) id (position ids id))
          (settle (record { taken_gp = taken; full = false }) (id + 1) r)
  unfolding settle
  new-Agrees r f k h e free same =
      let past : length ids ≤ k = ground (arith, t.entries k h, ap (λ a. get_or taken a 0) e) in
      let last : k ≡ length ids = ground (arith, before r f k h e (length ids)) in
      rw
        (
          position-absent ids id (λ i l. (before r f k h e i (omega arith)).1),
          lt→ltb (length ids) (capacity reserved) (omega arith),
          f.is,
          same,
          ← e,
          last,
        )
        (record {
          answer = refl;
          state = record { same_full = refl; table = λ o. Table-set (omega arith) };
        })

  pub Found-Agrees :
      (r : Option (ℕ × List ℕ))
      → Found 14 0 (id + 1) taken r
      → Agrees
          (place (record { reserved = reserved; ids = ids; full = false }) id (position ids id))
          (settle (record { taken_gp = taken; full = false }) (id + 1) r)
  Found-Agrees r f = elim f.mapped [
    | inl old ↦
        let p = slot-of reserved f.at f.below (unmarked f.at (inl old.0)) in
        old-Agrees r f p.0 p.1 p.2 old.0 old.1
    | inr new ↦
        let p = slot-of reserved f.at f.below (unmarked f.at (inr new.0)) in
        new-Agrees r f p.0 p.1 p.2 new.0 new.1
  ]

  pub AllTaken-Agrees :
      AllTaken 14 0 (id + 1) taken
      → Agrees
          (place (record { reserved = reserved; ids = ids; full = false }) id (position ids id))
          (settle (record { taken_gp = taken; full = false }) (id + 1) none)
  unfolding settle
  AllTaken-Agrees all =
      let other : (i : ℕ) → i < capacity reserved → (i < length ids) × (get_or ids i 0 ≢ id) =
        λ i h. carries_other i h (all (slot reserved i) (omega arith) (slot-small reserved i h)) in
      let no_room : ltb (length ids) (capacity reserved) ≡ false =
        ground (arith, other (length ids)) in
      rw (position-absent ids id (λ i l. (other i (omega (arith, t.few))).1), no_room)
        (record {
          answer = refl;
          state = record { same_full = refl; table = λ o. absurd (true≢false o) };
        })
