-- ===== src/Proto/Binary/Writing.antt =====
-- The binary serializer emits the format.
use open_airbus_cockpit.Prelude.{ℕ, ◌+◌, ◌%◌, ◌<◌, ◌≡◌, arith, List, length}
use open_airbus_cockpit.Prelude.Words.{u8_mod, u16_mod, u32_mod, to_bytes}
use open_airbus_cockpit.Endian.{native_to_big_u16, native_to_big_u32}
use open_airbus_cockpit.Endian.Swap.{native_to_big_u16_lem, native_to_big_u32_lem}
use open_airbus_cockpit.Stream.Interface.{OutputStream, IsOutput}
use open_airbus_cockpit.Stream.{write_as}
use open_airbus_cockpit.Stream.Writes.{Emits, >>-Emits, write_as-Emits, write_as_string-Emits}
use open_airbus_cockpit.Proto.Binary.{
  FloatOps, float_parts, msg_type_to_code, write_msg_begin, write_msg_end, write_string_value,
  write_uint8_value, write_uint16_value, write_uint32_value, write_float_value,
}
use open_airbus_cockpit.Proto.Binary.Format.{u8, u16, u32, text, float_number, crlf}

pub parts_bound :
    (f : FloatOps) (v : ℕ) → ((float_parts f v).0 < u32_mod) × ((float_parts f v).1 < u32_mod)
unfolding float_parts
parts_bound f v = (omega arith, omega arith)

module _ (f : FloatOps) {S : Type 0} {output : OutputStream S} {sent : S → List ℕ} {room : S → ℕ}
    {Ready : S → Type 0} (laws : IsOutput output sent room Ready) where
  u16-Emits : (v : ℕ) → v < u16_mod → Emits laws (write_as output 2 (native_to_big_u16 v)) (u16 v)
  u16-Emits v h = rw (native_to_big_u16_lem v h).2 at (write_as-Emits laws 2 (native_to_big_u16 v))

  u32-Emits : (v : ℕ) → v < u32_mod → Emits laws (write_as output 4 (native_to_big_u32 v)) (u32 v)
  u32-Emits v h = rw (native_to_big_u32_lem v h).2 at (write_as-Emits laws 4 (native_to_big_u32 v))

  pub msg_begin-Emits : (k : ℕ) → k < 7 → Emits laws (write_msg_begin f output k) (u16 (0x700 + k))
  unfolding write_msg_begin msg_type_to_code
  msg_begin-Emits k h =
      let code : (k % u16_mod + 0x700) % u16_mod ≡ 0x700 + k = omega arith in
      rw code (u16-Emits (0x700 + k) (omega arith))

  pub msg_end-Emits : Emits laws (write_msg_end f output) crlf
  unfolding write_msg_end
  msg_end-Emits = u16-Emits 0x0d0a (omega arith)

  pub string_value-Emits :
      (s : List ℕ) → length s < u16_mod → Emits laws (write_string_value f output s) (text s)
  unfolding write_string_value
  string_value-Emits s h =
      let kept : length s % u16_mod ≡ length s = omega arith in
      >>-Emits laws (u16 (length s)) s (rw kept (u16-Emits (length s) h))
        (write_as_string-Emits laws s)

  pub uint8_value-Emits : (v : ℕ) → v < u8_mod → Emits laws (write_uint8_value f output v) (u8 v)
  unfolding write_uint8_value to_bytes
  uint8_value-Emits v h =
      let byte : v % 256 ≡ v = omega arith in rw byte at (write_as-Emits laws 1 v)

  pub uint16_value-Emits :
      (v : ℕ) → v < u16_mod → Emits laws (write_uint16_value f output v) (u16 v)
  unfolding write_uint16_value
  uint16_value-Emits v h = u16-Emits v h

  pub uint32_value-Emits :
      (v : ℕ) → v < u32_mod → Emits laws (write_uint32_value f output v) (u32 v)
  unfolding write_uint32_value
  uint32_value-Emits v h = u32-Emits v h

  pub float_value-Emits : (v : ℕ) → Emits laws (write_float_value f output v) (float_number f v)
  unfolding write_float_value
  float_value-Emits v =
      >>-Emits laws (u32 (float_parts f v).0) (u32 (float_parts f v).1)
        (u32-Emits (float_parts f v).0 (parts_bound f v).0)
        (u32-Emits (float_parts f v).1 (parts_bound f v).1)
