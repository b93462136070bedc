-- ===== src/Imlgen/Computed.antt =====
-- What the instructions that `imlgen` links compute.
use koshka.Base.{ℕ, List, [], ◌∷◌}
use koshka.Pool.{Pool}
use koshka.Iml.Types.{Instruction}
use koshka.Iml.Objects.{Object, Cell, IsAt}
use koshka.Decode.Effects.{WordComputes, WordMeans-WordComputes}
use koshka.Imlgen.Chain.{Chain}
use koshka.Imlgen.Linked.{Listing, head-Listing}
use koshka.Imlgen.Generated.{Generated}

-- At the handle begins a list of instructions, one for each word, in order, linked by their `next`
-- fields. Each computes in the pool what its word says, whatever the registers hold.
pub data Computed (p : Pool Cell) : List ℕ → ℕ → Type 0 where
  last :
      {word h : ℕ} (i : Instruction) (base : ℕ)
      → IsAt p h (Object.instruction i)
      → ((regs : ℕ → ℕ) → WordComputes word regs base p i)
      → Computed p (word ∷ []) h
  link :
      {word h : ℕ} {words : List ℕ} (i : Instruction) (next base : ℕ)
      → IsAt p h (Object.instruction (record i { next = next }))
      → ((regs : ℕ → ℕ) → WordComputes word regs base p i)
      → Computed p words next
      → Computed p (word ∷ words) h

-- A chain of meanings is one of what the words say.
pub Chain-Computed :
    {p : Pool Cell} {arm : Pool ℕ} {lo k h : ℕ} {words : List ℕ}
    → Listing arm k words
    → Chain p lo words h
    → Computed p words h
Chain-Computed {p = p} listing (Chain.last {word = word} i s) =
    Computed.last i s.base s.at
      (λ regs. WordMeans-WordComputes word s.base regs p i (head-Listing listing).1 s.meaning)
Chain-Computed {p = p} listing (Chain.link {word = word} i next s rest) =
    Computed.link i next s.base s.at
      (λ regs. WordMeans-WordComputes word s.base regs p i (head-Listing listing).1 s.meaning)
      (Chain-Computed (head-Listing listing).2 rest)
