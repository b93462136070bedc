-- ===== src/Iml/Objects.antt =====
-- How IML objects lie in a pool. A byte of the pool is zero, as calloc leaves it, or one byte of an
-- object; an object is read back where all its bytes stand in order.
use koshka.Base.{ℕ, zero, suc, ◌==◌, ◌≡◌, refl, ap, arith, if◌then◌else◌}
use koshka.Base.{Option, none, some, List, [], ◌∷◌, length}
use koshka.Base.Result.{Result, ok, err, undefined, ◌>>=◌}
use koshka.Pool.{Pool, Store, pool_read, pool_push}
use koshka.Iml.Types.{Expression, Instruction}

pub data Object : Type 0 where
  expression : Expression → Object
  instruction : Instruction → Object

pub data Cell : Type 0 where
  blank : Cell
  part : Object → ℕ → Cell

-- The sizes of the two structs under the x86-64 System V layout.
abbrev pub sizeof_expression : ℕ
sizeof_expression = 24

abbrev pub sizeof_instruction : ℕ
sizeof_instruction = 48

-- The `n` bytes of `x` from byte `i` on.
unfoldable pub parts : Object → ℕ → ℕ → List Cell
parts x i zero = []
parts x i (suc n) = part x i ∷ parts x (suc i) n

abbrev pub sizeof : Object → ℕ
sizeof (expression e) = sizeof_expression
sizeof (instruction i) = sizeof_instruction

unfoldable pub bytes : Object → List Cell
unfolding parts
bytes x = parts x 0 (sizeof x)

-- Whether the cells after the first go on with byte `i` of an object.
in_order : List Cell → ℕ → Object → Option Object
in_order [] i x = some x
in_order (blank ∷ cs) i x = none
in_order (part y j ∷ cs) i x = if i == j then in_order cs (suc i) x else none

-- The object whose bytes the cells are; bytes of anything else have no meaning.
unfoldable pub assemble : List Cell → Option Object
unfolding in_order
assemble [] = none
assemble (blank ∷ cs) = none
assemble (part x i ∷ cs) = if i == 0 then in_order cs 1 x else none

in_order-parts : (x y : Object) (i n : ℕ) → in_order (parts x i n) i y ≡ some y
unfolding in_order parts
in_order-parts x y i zero = refl
in_order-parts x y i (suc n) = ground (arith, in_order-parts x y (suc i) n)

pub length-parts : (x : Object) (i n : ℕ) → length (parts x i n) ≡ n
unfolding parts
length-parts x i zero = refl
length-parts x i (suc n) = ap suc (length-parts x (suc i) n)

pub length-bytes : (x : Object) → length (bytes x) ≡ sizeof x
unfolding bytes
length-bytes x = length-parts x 0 (sizeof x)

-- An object is read back from its bytes.
pub assemble-bytes : (x : Object) → assemble (bytes x) ≡ some x
unfolding assemble bytes parts
assemble-bytes (expression e) = in_order-parts (expression e) (expression e) 1 23
assemble-bytes (instruction i) = in_order-parts (instruction i) (instruction i) 1 47

abbrev loaded : Option Object → Result Object
loaded none = err undefined
loaded (some x) = ok x

-- The object at a handle, as a read through `pool_getdata` sees it.
unfoldable pub load : Pool Cell → ℕ → ℕ → Result Object
load pool handle size = do cells ← pool_read pool handle size; loaded (assemble cells)

abbrev pub IsAt : Pool Cell → ℕ → Object → Type 0
IsAt pool handle x = load pool handle (sizeof x) ≡ ok x

-- `pool_push(pool, &x, sizeof(x), 0)`
unfoldable pub push_object : Object → Store Cell → Result (ℕ × Store Cell)
push_object x st = pool_push blank st (bytes x) 0
