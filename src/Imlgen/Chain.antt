-- ===== src/Imlgen/Chain.antt =====
-- The list of instructions that `imlgen_recurse` leaves in the pool, linked by their `next` fields.
use koshka.Base.{ℕ, ◌+◌, ◌/◌, ◌≤◌, ◌≡◌, refl, arith, if◌then◌else◌}
use koshka.Base.{Bool, true, List, [], ◌∷◌}
use koshka.Base.Result.{ok}
use koshka.Pool.{Pool}
use koshka.Pool.Laws.{IsValid}
use koshka.Boolset.{Boolset, get_bit, set_bit}
use koshka.Iml.Types.{Instruction}
use koshka.Iml.Objects.{Object, Cell, load, IsAt, sizeof_instruction}
use koshka.Decode.Words.{WordMeans, WordMeans-Agrees}
use koshka.Imlgen.{Program, with_pool, link_decoded}
use koshka.Imlgen.Next.{Patched, set_next-Patched}

-- An instruction stands in the pool with its `next` set, and has in the pool the meaning of the
-- word. Its tree stands at or after `lo`, and the instruction after that.
pub record Stands (p : Pool Cell) (lo h word : ℕ) (i : Instruction) (next : ℕ) : Type 0 where
  pub base : ℕ
  pub from : lo ≤ base
  pub behind : base ≤ h
  pub below : h + sizeof_instruction ≤ p.pos
  pub meaning : WordMeans word base p i
  pub at : IsAt p h (Object.instruction (record i { next = next }))

-- At the handle begins a list of instructions, one for each word, in order. Each has the meaning of
-- its word, and its `next` is the handle of the one after; each stands after the one before. The
-- last keeps the `next` it was decoded with.
pub data Chain (p : Pool Cell) : ℕ → List ℕ → ℕ → Type 0 where
  last : {lo word h : ℕ} (i : Instruction) → Stands p lo h word i i.next → Chain p lo (word ∷ []) h
  link :
      {lo word h : ℕ} {words : List ℕ} (i : Instruction) (next : ℕ)
      → Stands p lo h word i next
      → Chain p (h + sizeof_instruction) words next
      → Chain p lo (word ∷ words) h

Stands-Patched :
    {p q : Pool Cell} {h next lo a word n : ℕ} {i j : Instruction}
    → IsValid p
    → Patched p h i next q
    → h + sizeof_instruction ≤ lo
    → Stands p lo a word j n
    → Stands q lo a word j n
unfolding load
Stands-Patched {a = a} {word} {j = j} v patch apart s = record {
  base = s.base;
  from = s.from;
  behind = s.behind;
  below = omega (arith, patch.same_pos, s.below);
  meaning =
      WordMeans-Agrees word j
        (record {
          grows = omega (arith, patch.same_pos);
          same = λ b m from_ below_.
              patch.above b m (omega (arith, s.from)) (omega (arith, v.in_range));
        })
        s.meaning;
  at =
      rw
        (patch.above a sizeof_instruction (omega (arith, s.from, s.behind))
          (omega (arith, s.below, v.in_range)))
        s.at;
}

pub Chain-Patched :
    {p q : Pool Cell} {h next lo a : ℕ} {i : Instruction} {words : List ℕ}
    → IsValid p
    → Patched p h i next q
    → h + sizeof_instruction ≤ lo
    → Chain p lo words a
    → Chain q lo words a
Chain-Patched v patch apart (Chain.last j s) = Chain.last j (Stands-Patched v patch apart s)
Chain-Patched v patch apart (Chain.link j n s rest) =
    Chain.link j n (Stands-Patched v patch apart s)
      (Chain-Patched v patch (omega (arith, s.from, s.behind)) rest)

Stands-lower :
    {p : Pool Cell} {lo a word n : ℕ} {i : Instruction} (lo' : ℕ)
    → lo' ≤ lo
    → Stands p lo a word i n
    → Stands p lo' a word i n
Stands-lower lo' h s = record {
  base = s.base;
  from = omega (arith, s.from);
  behind = s.behind;
  below = s.below;
  meaning = s.meaning;
  at = s.at;
}

pub Chain-lower :
    {p : Pool Cell} {lo a : ℕ} {words : List ℕ} (lo' : ℕ)
    → lo' ≤ lo
    → Chain p lo words a
    → Chain p lo' words a
Chain-lower lo' h (Chain.last i s) = Chain.last i (Stands-lower lo' h s)
Chain-lower lo' h (Chain.link i n s rest) = Chain.link i n (Stands-lower lo' h s) rest

-- The end of a call writes `next` into the instruction that the call stored.
pub link_decoded-Patched :
    (pos h next : ℕ) (recursed : Bool) (prog : Program) (i : Instruction) (marked : Boolset)
    (bit : Bool)
    → IsValid prog.iml.pool
    → h + sizeof_instruction ≤ prog.iml.pool.pos
    → IsAt prog.iml.pool h (Object.instruction i)
    → (if recursed then set_bit prog.decoded_instrs (pos / 4) true else ok prog.decoded_instrs)
      ≡ ok marked
    → get_bit marked (pos / 4) ≡ ok bit
    → (q : Pool Cell) × (link_decoded pos h recursed (next, prog)
        ≡ ok (h, with_pool (record prog { decoded_instrs = marked }) q))
      × Patched prog.iml.pool h i next q
unfolding link_decoded
link_decoded-Patched pos h next recursed prog i marked bit v room at mark reads =
    let (q, returns, patch) = set_next-Patched prog.iml.pool h i next v room at in
    (q, rw (mark, returns, reads) refl, patch)
