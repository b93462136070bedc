-- ===== src/Host/Whole.antt =====
-- A read that the file has enough bytes for.
use koshka.Base.{ℕ, ◌+◌, ◌≤◌, ◌≡◌, arith, List, length}
use koshka.Base.Slice.{slice, length-slice}
use koshka.Host.{Stream, fread}

pub fread_whole :
    (torn : List ℕ → List ℕ → List ℕ) (old : List ℕ) (n : ℕ) (f : Stream)
    → f.pos + n ≤ length f.contents
    → fread torn old n f ≡ (slice f.pos n f.contents, record f { pos = f.pos + n })
unfolding fread
fread_whole torn old n f h = ground (arith, length-slice f.pos n f.contents h)
