-- ===== src/Iml/Dangling.antt =====
-- The binary constructor of an expression where calloc refuses a larger buffer.
use koshka.Base.{
  ◌+◌, ◌*◌, ◌^◌, ◌≤◌, ◌<◌, ◌≡◌, refl, arith, false, Bool, some, none, List, ◌∷◌, u32, lt→ltb,
}
use koshka.Base.Result.{ok}
use koshka.Base.Slice.{overwrite}
use koshka.Pool.{Store, pool_push, pool_can_hold, append_data, pool_invalid_handle}
use koshka.Pool.Laws.{IsValid, pool_write-valid}
use koshka.Pool.Push.{pool_push_refused}
use koshka.Iml.Types.{MathOp, Expression, ExprBody}
use koshka.Iml.Objects.{Object, Cell, blank, bytes, length-bytes, push_object, sizeof_expression}
use koshka.Iml.Expressions.{node_expression, node_of}

-- The pool with an expression that it had room for.
abbrev with_expression : (e : Expression) (st : Store Cell) → IsValid st.pool → Store Cell
with_expression e st v = record st {
  pool = record st.pool {
    buf = some (overwrite st.pool.pos (bytes (Object.expression e)) v.cells);
    pos = u32 (st.pool.pos + sizeof_expression);
  };
}

push_expression-room :
    (e : Expression) (st : Store Cell) (v : IsValid st.pool)
    → st.pool.pos + sizeof_expression < st.pool.alloc_size
    → push_object (Object.expression e) st ≡ ok (st.pool.pos, with_expression e st v)
unfolding push_object pool_push pool_can_hold append_data
push_expression-room e st v room =
    rw
      (
        length-bytes (Object.expression e),
        lt→ltb (u32 (st.pool.pos + sizeof_expression)) st.pool.alloc_size (omega (arith, v.small)),
        pool_write-valid st.pool v st.pool.pos (bytes (Object.expression e))
            (omega (arith, length-bytes (Object.expression e))),
      )
      refl

push_expression-refused :
    (e : Expression) (st : Store Cell) (answers : List Bool)
    → st.pool.alloc_size ≤ st.pool.pos + sizeof_expression
    → st.pool.pos + sizeof_expression < 2 ^ 32
    → (st.pool.alloc_size + sizeof_expression) * 3 < 2 ^ 33
    → st.answers ≡ false ∷ answers
    → push_object (Object.expression e) st
      ≡ ok (pool_invalid_handle, record { pool = st.pool; answers = answers })
unfolding push_object pool_can_hold
push_expression-refused e st answers full small fits refused =
    pool_push_refused blank st (bytes (Object.expression e)) 0 answers
      (record {
        wanted = omega (arith, length-bytes (Object.expression e));
        no_overflow = omega (arith, length-bytes (Object.expression e));
      })
      (ground (arith, length-bytes (Object.expression e))) refused

-- Where the pool has room for the left side and not for the right one, and calloc refuses a larger
-- buffer, the binary constructor returns a node all the same, with the invalid handle for its right
-- side.
pub node_expression-dangling :
    (l r : Expression) (op : MathOp) (carry : Bool) (st : Store Cell) (answers : List Bool)
    → (v : IsValid st.pool) → st.pool.pos + sizeof_expression < st.pool.alloc_size
    → st.pool.alloc_size ≤ st.pool.pos + 2 * sizeof_expression
    → (st.pool.alloc_size + sizeof_expression) * 3 < 2 ^ 33
    → st.answers ≡ false ∷ answers
    → (after : Store Cell) × (node_expression l op r carry st
        ≡ ok (
          record {
            is_value = none;
            body = ExprBody.expr (node_of op carry st.pool.pos pool_invalid_handle);
          },
          after,
        ))
unfolding node_expression
node_expression-dangling l r op carry st answers v room full fits refused =
    let st1 : Store Cell = with_expression l st v in
    (
      record { pool = st1.pool; answers = answers },
      rw
          (
            push_expression-room l st v room,
            push_expression-refused r st1 answers (omega arith) (omega (arith, v.small)) fits
                refused,
          )
          refl,
    )
