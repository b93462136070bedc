-- ===== src/RegAlloc/Refine.antt =====
-- The allocator answers as its order does.
use koshka.Base.{ℕ, ◌+◌, ◌<◌, ◌≡◌, refl, ap₂, ◌∙◌, arith}
use koshka.Base.{true, false, Bool-cases, inl, inr, Option}
use koshka.Base.{List, [], ◌∷◌, get_or-replicate}
use koshka.RegAlloc.{RegState, initial, scan, reg_alloc, reg_reset}
use koshka.RegAlloc.Scan.{scan_lem}
use koshka.RegAlloc.Sound.{get_or-initial}
use koshka.Base.{true≢false}
use koshka.RegAlloc.Safety.{reg_alloc_open}
use koshka.RegAlloc.Order.{Order, slot, ask, nobody, Command, IdsBelow, expected}
use koshka.RegAlloc.Order.{slot-small}
use koshka.RegAlloc.Table.{Table, Refines, Agrees, Found-Agrees, AllTaken-Agrees}

full-Agrees :
    (o : Order) (st : RegState) (id : ℕ)
    → Refines o st
    → o.full ≡ true
    → Agrees (ask o id) (reg_alloc st id)
unfolding reg_alloc
full-Agrees o st id s shut =
    rw (shut, s.same_full ∙ shut)
      (record {
        answer = refl;
        state = record { same_full = refl; table = λ e. absurd (true≢false e) };
      })

reg_alloc-Agrees :
    (o : Order) (st : RegState) (id : ℕ)
    → id < 254
    → Refines o st
    → Agrees (ask o id) (reg_alloc st id)
reg_alloc-Agrees o st id small s = elim (Bool-cases o.full) [
  | inl shut ↦ full-Agrees o st id s shut
  | inr is_open ↦
      let t : Table o.reserved o.ids st.taken_gp = s.table is_open in
      rw (is_open, reg_alloc_open st id (s.same_full ∙ is_open) small, s.same_full ∙ is_open)
        (elim (scan_lem 14 0 (id + 1) st.taken_gp) [
          | inl f ↦
              Found-Agrees o.reserved o.ids st.taken_gp t id small (scan 14 0 (id + 1) st.taken_gp)
                f
          | inr n ↦ rw n.0 (AllTaken-Agrees o.reserved o.ids st.taken_gp t id small n.1)
        ])
]

start-Refines : Refines (nobody true) initial
start-Refines = record {
  same_full = refl;
  table = λ o. record {
    size = refl;
    marked = λ j m. ground arith;
    few = omega arith;
    entries = λ k h. get_or-initial (slot true k) (slot-small true k h) ∙ ground arith;
  };
}

reset-Refines : (st : RegState) → Refines (nobody false) (reg_reset st)
unfolding reg_reset
reset-Refines st = record {
  same_full = refl;
  table = λ o. record {
    size = refl;
    marked = λ j m. ground arith;
    few = omega arith;
    entries = λ k h. get_or-replicate {A = ℕ} 16 k 0 0 (omega arith) ∙ ground arith;
  };
}

-- What `reg_alloc` returns to each request.
abbrev pub answers : RegState → List Command → List (Option ℕ)
answers st [] = []
answers st (Command.request id ∷ rest) = (reg_alloc st id).0 ∷ answers ((reg_alloc st id).1) rest
answers st (Command.reset ∷ rest) = answers (reg_reset st) rest

Refines-answers :
    (o : Order) (st : RegState) (commands : List Command)
    → Refines o st
    → IdsBelow 254 commands
    → answers st commands ≡ expected o commands
Refines-answers o st [] s small = refl
Refines-answers o st (Command.request id ∷ rest) s small =
    let one : Agrees (ask o id) (reg_alloc st id) = reg_alloc-Agrees o st id small.0 s in
    ap₂ (λ a l. a ∷ l) one.answer
      (Refines-answers ((ask o id).1) ((reg_alloc st id).1) rest one.state small.1)
Refines-answers o st (Command.reset ∷ rest) s small =
    Refines-answers (nobody false) (reg_reset st) rest (reset-Refines st) small

-- On any calls since the start of the program, with ids below 254, the allocator answers as its
-- order does: an id that has a register gets it again, a new id the next of the registers that are
-- not reserved, and after the first id for which there is none every request gets -1, until a reset.
-- There are 12 such registers before the first reset, without RSP and RBP, and 14 after it.
pub answers-expected :
    (commands : List Command)
    → IdsBelow 254 commands
    → answers initial commands ≡ expected (nobody true) commands
answers-expected commands small = Refines-answers (nobody true) initial commands start-Refines small
