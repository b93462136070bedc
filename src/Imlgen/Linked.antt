-- ===== src/Imlgen/Linked.antt =====
-- `imlgen_recurse` decodes every word of the ARM code and links the instructions.
use koshka.Base.{ℕ, zero, suc, ◌+◌, ◌*◌, ◌/◌, ◌^◌, ◌≤◌, ◌<◌, ◌≡◌, refl, ◌∙◌, arith}
use koshka.Base.{if◌then◌else◌, ltb, leb, ◌==◌, ◌&&◌, true, false, List, [], ◌∷◌, length, u32}
use koshka.Base.{lt→ltb, ltb-false}
use koshka.Base.Result.{Result, ok}
use koshka.Pool.{Pool}
use koshka.Pool.Laws.{IsValid}
use koshka.Boolset.{get_bit, set_bit}
use koshka.Boolset.Laws
use koshka.Boolset.Laws.{stored, get_bit_lem, Holds, set_bit_lem}
use koshka.Iml.Objects.{Object, sizeof_instruction}
use koshka.Iml.Yields.{Ready, Extends, IsAt-Extends}
use koshka.Iml.Yields.{Ready-le, Extends-refl}
use koshka.Decode.Words.{IsAccepted}
use koshka.Imlgen.{Program, with_pool, arm_instr, link_decoded, imlgen_recurse}
use koshka.Imlgen.Stored.{Stored, store, next-Stands, call-Extends}
use koshka.Imlgen.Chain.{Chain, Chain-Patched, Chain-lower}
use koshka.Imlgen.Chain.{link_decoded-Patched}

-- The words stand in the ARM code from the word at index `k` on, and `decode` accepts each.
pub data Listing (arm : Pool ℕ) : ℕ → List ℕ → Type 0 where
  end_of_code : {k : ℕ} → Listing arm k []
  next_word :
      {k w : ℕ} {words : List ℕ}
      → arm_instr arm (4 * k) ≡ ok w
      → IsAccepted w
      → Listing arm (suc k) words
      → Listing arm k (w ∷ words)

-- The state in which the call for the words from index `k` on to the end of the code is made.
pub record Runnable (prog : Program) (k : ℕ) (words : List ℕ) : Type 0 where
  pub listing : Listing prog.arm_pool k words
  pub ends : prog.arm_pool.alloc_size ≡ 4 * (k + length words)
  pub fits : 4 * (k + length words) < 2 ^ 32
  pub ready : Ready prog.iml (192 * length words)
  pub set_valid : Laws.IsValid prog.decoded_instrs
  pub set_room : k + length words ≤ prog.decoded_instrs.byte_size * 8

-- What a call comes to: the words are linked in the pool behind all that was there, and all of
-- them but the last are marked as decoded.
pub record Linked (prog : Program) (k : ℕ) (words : List ℕ) (r : Result (ℕ × Program))
    : Type 0 where
  pub handle : ℕ
  pub after : Program
  pub returns : r ≡ ok (handle, after)
  pub valid : IsValid after.iml.pool
  pub extends : Extends prog.iml.pool after.iml.pool
  pub used : after.iml.pool.pos ≤ prog.iml.pool.pos + 192 * length words
  pub chain : Chain after.iml.pool prog.iml.pool.pos words handle
  pub same_entry : after.entry_point ≡ prog.entry_point
  pub set_valid : Laws.IsValid after.decoded_instrs
  pub same_size : after.decoded_instrs.byte_size ≡ prog.decoded_instrs.byte_size
  pub marks :
      (q : ℕ)
      → q < prog.decoded_instrs.byte_size * 8
      → get_bit after.decoded_instrs q ≡ (
          if leb k q && ltb (q + 1) (k + length words)
          then ok true
          else get_bit prog.decoded_instrs q)

-- The last word: nothing is marked, and `next` is written back unchanged.
close_last :
    (prog : Program) (k w : ℕ)
    → Runnable prog k (w ∷ [])
    → (s : Stored prog w 0)
    → Linked prog k
        (w ∷ [])
        (link_decoded (4 * k) s.handle false (s.instr.next, record prog { iml = s.after }))
close_last prog k w run s =
    let prog' : Program = record prog { iml = s.after } in
    let (q, returns, patch) =
      link_decoded-Patched (4 * k) s.handle s.instr.next false prog' s.instr prog.decoded_instrs
        (stored run.set_valid.bytes (4 * k / 4)) s.ready.valid s.below s.at refl
        (get_bit_lem prog.decoded_instrs run.set_valid (4 * k / 4) (omega (arith, run.set_room))) in
    record {
      handle = s.handle;
      after = with_pool prog' q;
      returns = returns;
      valid = patch.valid;
      extends = call-Extends s (Extends-refl s.after.pool) patch;
      used = omega (arith, patch.same_pos, s.used);
      chain = Chain.last s.instr (next-Stands s (Extends-refl s.after.pool) patch);
      same_entry = refl;
      set_valid = run.set_valid;
      same_size = refl;
      marks = λ p h. ground arith;
    }

-- Any other word, after the recursive call for the words behind it.
close_link :
    (prog : Program) (k w : ℕ) (words : List ℕ)
    → 0 < length words
    → Runnable prog k (w ∷ words)
    → (s : Stored prog w (192 * length words)) {r : Result (ℕ × Program)}
    → (rest : Linked (record prog { iml = s.after }) (suc k) words r)
    → Linked prog k (w ∷ words) (link_decoded (4 * k) s.handle true (rest.handle, rest.after))
close_link prog k w words some_ run s rest =
    let mark : Holds rest.after.decoded_instrs rest.after.decoded_instrs.byte_size
        (λ q. if q == 4 * k / 4 then ok true else get_bit rest.after.decoded_instrs q)
        (set_bit rest.after.decoded_instrs (4 * k / 4) true) =
      set_bit_lem rest.after.decoded_instrs (4 * k / 4) true rest.set_valid
        (omega (arith, run.set_room, rest.same_size)) in
    let (q, returns, patch) =
      link_decoded-Patched (4 * k) s.handle rest.handle true rest.after s.instr mark.after
        (stored mark.valid.bytes (4 * k / 4)) rest.valid
        (omega (arith, s.below, rest.extends.grows))
        (IsAt-Extends s.handle (Object.instruction s.instr) s.below rest.extends s.at) mark.returns
        (get_bit_lem mark.after mark.valid (4 * k / 4)
          (omega (arith, run.set_room, rest.same_size, mark.same_size))) in
    record {
      handle = s.handle;
      after = with_pool (record (rest.after) { decoded_instrs = mark.after }) q;
      returns = returns;
      valid = patch.valid;
      extends = call-Extends s rest.extends patch;
      used = omega (arith, patch.same_pos, s.used, rest.used);
      chain = Chain.link s.instr rest.handle (next-Stands s rest.extends patch) (
          Chain-Patched rest.valid patch (omega arith)
            (Chain-lower (s.handle + sizeof_instruction) s.below rest.chain));
      same_entry = rest.same_entry;
      set_valid = mark.valid;
      same_size = mark.same_size ∙ rest.same_size;
      marks = λ p h. mark.reads p (omega (arith, rest.same_size)) ∙ ground (arith, rest.marks p h);
    }

next_pos : (k n : ℕ) → 4 * (k + suc n) < 2 ^ 32 → u32 (4 * k + 4) ≡ 4 * suc k
next_pos k n h = omega arith

pub head-Listing :
    {arm : Pool ℕ} {k w : ℕ} {words : List ℕ}
    → Listing arm k (w ∷ words)
    → (arm_instr arm (4 * k) ≡ ok w) × IsAccepted w × Listing arm (suc k) words
head-Listing (Listing.next_word fetched encoded rest) = (fetched, encoded, rest)

pub tail-Runnable :
    {prog : Program} {k w : ℕ} {words : List ℕ}
    → Runnable prog k (w ∷ words)
    → (s : Stored prog w (192 * length words))
    → Runnable (record prog { iml = s.after }) (suc k) words
tail-Runnable run s = record {
  listing = (head-Listing run.listing).2;
  ends = omega (arith, run.ends);
  fits = omega (arith, run.fits);
  ready = s.ready;
  set_valid = run.set_valid;
  set_room = omega (arith, run.set_room);
}

pub store_head :
    {prog : Program} {k w : ℕ} {words : List ℕ}
    → Runnable prog k (w ∷ words)
    → Stored prog w (192 * length words)
store_head {prog} {w = w} {words = words} run =
    store prog w (192 * length words) (head-Listing run.listing).1
      (Ready-le _ (omega arith) run.ready)

-- From a state with room for its words, each of which `decode` accepts, a call for the word
-- at index `k` returns. For every word from there on an instruction that has in the pool that comes
-- out the meaning of the word is linked, in order, behind all that the pool held, and each word but
-- the last of the code is marked.
pub imlgen_recurse-Linked :
    (depth k : ℕ) (prog : Program) (w : ℕ) (words : List ℕ)
    → length words < depth
    → Runnable prog k (w ∷ words)
    → Linked prog k (w ∷ words) (imlgen_recurse depth prog (4 * k))
unfolding imlgen_recurse
imlgen_recurse-Linked zero k prog w words h run = absurd (omega arith)
imlgen_recurse-Linked (suc depth) k prog w [] h run =
    let s : Stored prog w 0 = store_head run in
    rw
      (
        (head-Listing run.listing).0,
        s.decodes,
        s.pushes,
        ltb-false (u32 (4 * k + 4)) prog.arm_pool.alloc_size (omega (arith, run.ends, run.fits)),
      )
      (close_last prog k w run s)
imlgen_recurse-Linked (suc depth) k prog w (v ∷ words) h run =
    let s : Stored prog w (192 * suc (length words)) = store_head run in
    let rest : Linked (record prog { iml = s.after }) (suc k) (v ∷ words)
        (imlgen_recurse depth (record prog { iml = s.after }) (4 * suc k)) =
      imlgen_recurse-Linked depth (suc k) (record prog { iml = s.after }) v words (omega arith)
        (tail-Runnable run s) in
    rw
      (
        (head-Listing run.listing).0,
        s.decodes,
        s.pushes,
        lt→ltb (u32 (4 * k + 4)) prog.arm_pool.alloc_size (omega (arith, run.ends, run.fits)),
        next_pos k (suc (length words)) run.fits,
        rest.returns,
      )
      (close_link prog k w (v ∷ words) (omega arith) run s rest)
