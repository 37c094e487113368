-- ===== src/Buffer/Shifted.antt =====
-- liboac/include/liboac/buffer/shifted.h: a buffer seen from an offset on, over any buffer. Its stream
-- operations pass on to the backed buffer, and its capacity is that buffer's.
pub mod Access
use open_airbus_cockpit.Prelude.{
  ℕ, List, ltb, ◌||◌, if◌then◌else◌, length, ok, throws, on_ok, and_then, ◌>>◌, lift,
}
use open_airbus_cockpit.Prelude.Words.{add32, sub32}
use open_airbus_cockpit.Exception.{Exception, index_out_of_bounds, Result, Method}
use open_airbus_cockpit.Buffer.Interface.{Buffer}

pub record Shifted (B : Type 0) : Type 0 where
  pub backed_buffer : B
  pub backed_capacity : ℕ
  pub offset_shift : ℕ

module _ {B : Type 0} where
  pub shift : ℕ → Shifted B → ℕ
  shift offset s = sub32 offset s.offset_shift

  pub check_bounds : ℕ → ℕ → Shifted B → Result (Unit {0})
  unfolding shift
  check_bounds offset n s =
      if ltb offset s.offset_shift || ltb s.backed_capacity (add32 (shift offset s) n)
      then throws (index_out_of_bounds (add32 offset n) 0 (sub32 s.backed_capacity 1))
      else ok tt

  module _ (ops : Buffer B) where
    unfoldable pub create : B → ℕ → Shifted B
    create backed offset_shift = record {
      backed_buffer = backed;
      backed_capacity = ops.capacity backed;
      offset_shift = offset_shift;
    }

    pub capacity : Shifted B → ℕ
    capacity s = ops.capacity s.backed_buffer

    pub read : ℕ → ℕ → Shifted B → Result (List ℕ)
    unfolding check_bounds
    read offset n s =
        on_ok (check_bounds offset n s) λ _. ops.read s.backed_buffer (shift offset s) n

    -- A call on the backed buffer.
    pub on_backed : {A : Type 0} → Method B A → Method (Shifted B) A
    on_backed m s = let (o, b) = m s.backed_buffer in (o, record s { backed_buffer = b })

    pub write : List ℕ → ℕ → Method (Shifted B) (Unit {0})
    unfolding check_bounds on_backed
    write src offset s =
        (lift (check_bounds offset (length src) s) >> on_backed (ops.write src (shift offset s))) s
