-- ===== src/Imlgen/Refused.antt =====
-- `imlgen` on code with a word that `decode` does not accept.
use koshka.Base.{ℕ, zero, suc, ◌+◌, ◌*◌, ◌^◌, ◌≤◌, ◌<◌, ◌≡◌, ◌⊎◌, inl, inr, refl, sym, ◌∙◌, ap, not}
use koshka.Base.{Bool, true, List, [], ◌∷◌, length, u32, lt→ltb, arith, ◌↔◌}
use koshka.Base.Result.{Faults, ok≢err, ok, fuel}
use koshka.Pool.{Pool, all_granted}
use koshka.Iml.Yields.{Ready, Ready-le}
use koshka.Decode.Words.{IsAccepted}
use koshka.Decode.Faults.{decode-IsAccepted}
use koshka.Imlgen.{Program, arm_instr, imlgen_recurse, imlgen, start}
use koshka.Imlgen.Stored.{Stored, store}
use koshka.Imlgen.Linked.{Listing}
use koshka.Imlgen.Generated.{code_pool, start-Ready, imlgen-Generated, Generated, ==_no}
use koshka.Imlgen.Torn.{next_at}

-- The words that stand in the ARM code from the word at index `k` on.
pub data Fetches (arm : Pool ℕ) : ℕ → List ℕ → Type 0 where
  end_of_code : {k : ℕ} → Fetches arm k []
  next_word :
      {k w : ℕ} {words : List ℕ}
      → arm_instr arm (4 * k) ≡ ok w
      → Fetches arm (suc k) words
      → Fetches arm k (w ∷ words)

-- A call that goes on to the next word faults where that call does.
more_words :
    (depth k : ℕ) (prog : Program) (w : ℕ) (n : ℕ)
    → arm_instr prog.arm_pool (4 * k) ≡ ok w
    → 4 * k + 4 < prog.arm_pool.alloc_size
    → prog.arm_pool.alloc_size < 2 ^ 32
    → (s : Stored prog w n)
    → Faults (imlgen_recurse depth (record prog { iml = s.after }) (4 * suc k))
    → Faults (imlgen_recurse (suc depth) prog (4 * k))
unfolding imlgen_recurse
more_words depth k prog w n fetched more small s (e, h) = (
  e,
  rw
      (
        fetched,
        s.decodes,
        s.pushes,
        lt→ltb (u32 (4 * k + 4)) prog.arm_pool.alloc_size (omega arith),
        next_at k (omega arith),
        h,
      )
      refl,
)

refused_word :
    (depth k : ℕ) (prog : Program) (w : ℕ)
    → arm_instr prog.arm_pool (4 * k) ≡ ok w
    → IsAccepted w ⊎ Faults (imlgen_recurse (suc depth) prog (4 * k))
unfolding imlgen_recurse
refused_word depth k prog w fetched = elim (decode-IsAccepted w prog.iml) [
  | inl encoded ↦ inl encoded
  | inr f ↦ inr (f.0, rw (fetched, f.1) refl)
]

no_fuel : (prog : Program) (pos : ℕ) → Faults (imlgen_recurse zero prog pos)
unfolding imlgen_recurse
no_fuel prog pos = (fuel, refl)

-- A call either faults, or `decode` accepts each of its words.
imlgen_recurse-Listing :
    (depth k : ℕ) (prog : Program) (words : List ℕ)
    → Fetches prog.arm_pool k words
    → prog.arm_pool.alloc_size ≡ 4 * (k + length words)
    → prog.arm_pool.alloc_size < 2 ^ 32
    → Ready prog.iml (192 * length words)
    → Listing prog.arm_pool k words ⊎ Faults (imlgen_recurse depth prog (4 * k))
imlgen_recurse-Listing depth k prog [] f ends small ready = inl Listing.end_of_code
imlgen_recurse-Listing zero k prog (w ∷ words) f ends small ready = inr (no_fuel prog (4 * k))
imlgen_recurse-Listing (suc depth) k prog (w ∷ []) (Fetches.next_word fetched rest) ends small
      ready =
    elim (refused_word depth k prog w fetched) [
      | inl encoded ↦ inl (Listing.next_word fetched encoded Listing.end_of_code)
      | inr f ↦ inr f
    ]
imlgen_recurse-Listing (suc depth) k prog (w ∷ v ∷ words) (Fetches.next_word fetched rest) ends
      small ready =
    elim (refused_word depth k prog w fetched) [
      | inr f ↦ inr f
      | inl encoded ↦
          let s : Stored prog w (192 * suc (length words)) =
            store prog w (192 * suc (length words)) encoded (Ready-le _ (omega arith) ready) in
          elim (imlgen_recurse-Listing depth (suc k) (record prog { iml = s.after }) (v ∷ words)
            rest (omega arith) small s.ready) [
              | inl listing ↦ inl (Listing.next_word fetched encoded listing)
              | inr f ↦ inr (more_words depth k prog w _ fetched (omega arith) small s f)
            ]
    ]

pub imlgen-Listing :
    (answers set_answers : List Bool) (arm_code words : List ℕ)
    → 0 < length words
    → all_granted answers ≡ true
    → length arm_code ≡ 4 * length words
    → 192 * length words ≤ 2 ^ 30
    → Fetches (code_pool arm_code) 0 words
    → Listing (code_pool arm_code) 0 words
      ⊎ Faults (imlgen answers set_answers arm_code (length arm_code))
unfolding imlgen start
imlgen-Listing answers set_answers arm_code words some_ granted size room fetches =
    elim (imlgen_recurse-Listing (length arm_code) 0
      (start answers set_answers arm_code (length arm_code)) words fetches (omega arith)
      (omega arith)
      (start-Ready answers set_answers arm_code (length words) granted (omega arith) room)) [
        | inl listing ↦ inl listing
        | inr f ↦ inr (f.0, rw (ap not (==_no (length arm_code) 0 (omega arith)), f.1) refl)
      ]

-- On ARM code of whole words, of at most 2^30 / 192 words, with every calloc granted, imlgen
-- returns if and only if decode accepts each of the words: it is not 0, the fields of a bitwise
-- operation with an immediate encode a bitmask, and the shift of an operation on shifted
-- registers fits them.
pub imlgen-returns_iff :
    (answers set_answers : List Bool) (arm_code : List ℕ) (w : ℕ) (words : List ℕ)
    → all_granted answers ≡ true
    → all_granted set_answers ≡ true
    → length arm_code ≡ 4 * length (w ∷ words)
    → 192 * length (w ∷ words) ≤ 2 ^ 30
    → Fetches (code_pool arm_code) 0 (w ∷ words)
    → ((prog : Program) × (imlgen answers set_answers arm_code (length arm_code) ≡ ok prog))
      ↔ Listing (code_pool arm_code) 0 (w ∷ words)
imlgen-returns_iff answers set_answers arm_code w words granted set_granted size room fetches = (
  λ run.
      elim (imlgen-Listing answers set_answers arm_code (w ∷ words) (omega arith) granted size room
        fetches) [ inl listing ↦ listing | inr f ↦ absurd (ok≢err (sym run.1 ∙ f.1)) ],
  λ listing.
      let g : Generated (w ∷ words) (imlgen answers set_answers arm_code (length arm_code)) =
        imlgen-Generated answers set_answers arm_code w words granted set_granted size room
          listing in
      (g.program, g.returns),
)
