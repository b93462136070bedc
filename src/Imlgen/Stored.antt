-- ===== src/Imlgen/Stored.antt =====
-- One round of `imlgen_recurse` up to the recursive call: the word is decoded and its instruction
-- stored behind its tree.
use koshka.Base.{ℕ, ◌+◌, ◌≤◌, ◌≡◌, ◌∙◌, arith}
use koshka.Base.Result.{ok}
use koshka.Pool.{Pool, Store}
use koshka.Iml.Types.{Instruction}
use koshka.Iml.Objects.{Object, Cell, IsAt, sizeof_instruction, push_object}
use koshka.Iml.Yields.{Ready, Extends, Extends-trans, Yields, Yields-Ready, Lands}
use koshka.Iml.Yields.{push_object-Yields, Ready-le}
use koshka.Iml.Trees.{Extends-Agrees}
use koshka.Decode.Words.{IsAccepted, WordMeans, WordMeans-Agrees}
use koshka.Decode.Total.{decode-Means}
use koshka.Decode.{decode}
use koshka.Imlgen.{Program}
use koshka.Imlgen.Next.{Patched}
use koshka.Imlgen.Chain.{Stands}

-- A call after its two steps on the pool: the instruction is stored.
pub record Stored (prog : Program) (word : ℕ) (n : ℕ) : Type 0 where
  pub instr : Instruction
  pub handle : ℕ
  pub between : Store Cell
  pub after : Store Cell
  pub decodes : decode word prog.iml ≡ ok (instr, between)
  pub pushes : push_object (Object.instruction instr) between ≡ ok (handle, after)
  pub ready : Ready after n
  pub meaning : WordMeans word prog.iml.pool.pos between.pool instr
  pub tree_extends : Extends prog.iml.pool between.pool
  pub extends : Extends between.pool after.pool
  pub behind : between.pool.pos ≤ handle
  pub below : handle + sizeof_instruction ≤ after.pool.pos
  pub used : after.pool.pos ≤ prog.iml.pool.pos + 192
  pub at : IsAt after.pool handle (Object.instruction instr)

pub store :
    (prog : Program) (word n : ℕ) → IsAccepted word → Ready prog.iml (192 + n) → Stored prog word n
store prog word n encoded ready = record {
  instr = d.result;
  handle = p.result;
  between = d.after;
  after = p.after;
  decodes = d.returns;
  pushes = p.returns;
  ready = Yields-Ready n p room;
  meaning = d.holds;
  tree_extends = d.extends;
  extends = p.extends;
  behind = omega (arith, p.holds.0);
  below = p.holds.2;
  used = omega (arith, d.room, p.room);
  at = p.holds.1;
}
  where
    d : Yields prog.iml 144 (WordMeans word prog.iml.pool.pos) (decode word prog.iml)
    d = decode-Means word prog.iml encoded (Ready-le 144 (omega arith) ready)

    room : Ready d.after (sizeof_instruction + n)
    room = Yields-Ready (sizeof_instruction + n) d (Ready-le _ (omega arith) ready)

    x : Object
    x = Object.instruction d.result

    p : Yields d.after 48 (Lands d.after.pool.pos x) (push_object x d.after)
    p = push_object-Yields x d.after (Ready-le 48 (omega arith) room)

-- The pool of a patch still has all that stood before the call.
Extends-Patched :
    {p0 p q : Pool Cell} {h next : ℕ} {i : Instruction}
    → p0.pos ≤ h
    → Extends p0 p
    → Patched p h i next q
    → Extends p0 q
Extends-Patched from e patch = record {
  grows = omega (arith, patch.same_pos, e.grows);
  kept = λ a n k. patch.below a n (omega arith) ∙ e.kept a n k;
}

-- The stored instruction keeps its meaning up to its own patch: its tree stands below it.
pub next-Stands :
    {prog : Program} {word n next : ℕ} {p q : Pool Cell} (s : Stored prog word n)
    → Extends s.after.pool p
    → Patched p s.handle s.instr next q
    → Stands q prog.iml.pool.pos s.handle word s.instr next
next-Stands {prog} {word} {q = q} s more patch =
    let whole : Extends s.between.pool q =
      Extends-Patched s.behind (Extends-trans s.extends more) patch in
    record {
      base = prog.iml.pool.pos;
      from = omega arith;
      behind = omega (arith, s.behind, s.tree_extends.grows);
      below = omega (arith, patch.same_pos, s.below, more.grows);
      meaning = WordMeans-Agrees word s.instr (Extends-Agrees prog.iml.pool.pos whole) s.meaning;
      at = patch.patched;
    }

-- What stood before the call stays.
pub call-Extends :
    {prog : Program} {word n next : ℕ} {p q : Pool Cell} (s : Stored prog word n)
    → Extends s.after.pool p
    → Patched p s.handle s.instr next q
    → Extends prog.iml.pool q
call-Extends s more patch =
    Extends-Patched (omega (arith, s.behind, s.tree_extends.grows))
      (Extends-trans s.tree_extends (Extends-trans s.extends more)) patch
