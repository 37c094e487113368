-- ===== src/Buffer/Double.antt =====
-- liboac/include/liboac/buffer/double.h: two buffers of which one is current, over any buffer. The index
-- `_current_buffer`, which is 0 or 1, is a truth value: whether it is 1.
pub mod Changes
use open_airbus_cockpit.Prelude.{ℕ, List, Bool, true, false, not, if◌then◌else◌, on_ok, ok}
use open_airbus_cockpit.Prelude.Maps.{same_string}
use open_airbus_cockpit.Exception.{Exception, Result, Method}
use open_airbus_cockpit.Buffer.Interface.{Buffer}

pub record Double (B : Type 0) : Type 0 where
  pub backed_buffer_0 : B
  pub backed_buffer_1 : B
  pub current_buffer : Bool

-- `memcmp(data0, data1, length) != 0`.
pub differ : List ℕ → List ℕ → Bool
differ data0 data1 = elim (same_string data0 data1) [ yes _ ↦ false | no _ ↦ true ]

module _ {B : Type 0} where
  pub create : B → B → Double B
  create b0 b1 = record { backed_buffer_0 = b0; backed_buffer_1 = b1; current_buffer = false }

  -- `_backed_buffer[_current_buffer]`, and a call on it.
  abbrev pub current : Double B → B
  current d = if d.current_buffer then d.backed_buffer_1 else d.backed_buffer_0

  abbrev pub with_current : B → Double B → Double B
  with_current b d =
      if d.current_buffer
      then record d { backed_buffer_1 = b }
      else record d { backed_buffer_0 = b }

  pub on_current : {A : Type 0} → Method B A → Method (Double B) A
  on_current m d = let (o, b) = m (current d) in (o, with_current b d)

  pub swap : Double B → Double B
  swap d = record d { current_buffer = not d.current_buffer }

  module _ (ops : Buffer B) where
    pub capacity : Double B → ℕ
    capacity d = ops.capacity (current d)

    pub read : Double B → ℕ → ℕ → Result (List ℕ)
    read d offset n = ops.read (current d) offset n

    pub write : List ℕ → ℕ → Method (Double B) (Unit {0})
    unfolding on_current
    write src offset = on_current (ops.write src offset)

    pub is_modified : ℕ → ℕ → Double B → Result Bool
    unfolding differ
    is_modified n offset d =
        on_ok (ops.read d.backed_buffer_0 offset n)
          λ data0. on_ok (ops.read d.backed_buffer_1 offset n) λ data1. ok (differ data0 data1)

    abbrev pub double_ops : Buffer (Double B)
    double_ops = record { capacity = capacity; read = read; write = write }
