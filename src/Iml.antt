-- ===== src/Iml.antt =====
-- The intermediate language of src/imlgen/iml.{hxx,cxx}: its types, how its objects lie in a
-- pool, the two constructors of an expression, and the trees that expressions stand for.
pub mod Types
pub mod Objects
pub mod Monad
pub mod Expressions
pub mod Trees
pub mod Yields
pub mod Typing
pub mod Starved
pub mod Dangling
pub mod Values
pub mod Bits
