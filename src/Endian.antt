-- ===== src/Endian.antt =====
-- liboac/include/liboac/endian.h: byte order. The program runs on x86, so the branches for
-- BOOST_LITTLE_ENDIAN are taken. A signed word is its bit pattern.
pub mod Swap
use Prim.Native.Nat.{bit_and, bit_or}
use open_airbus_cockpit.Prelude.{ℕ, ◌+◌, ◌-◌, ◌*◌, ◌/◌, ◌%◌, ◌^◌, ltb, if◌then◌else◌}
use open_airbus_cockpit.Prelude.Words.{u16_mod, u32_mod}

-- The operands are promoted to `int`, and the result is cut to 16 bits.
pub endian_swap_u16 : ℕ → ℕ
endian_swap_u16 v = bit_or (v / 2 ^ 8) (v * 2 ^ 8) % u16_mod

pub endian_swap_u32 : ℕ → ℕ
endian_swap_u32 v =
    bit_or
      (bit_or (bit_or (v / 2 ^ 24) (bit_and (v * 2 ^ 8 % u32_mod) 0x00ff0000))
        (bit_and (v / 2 ^ 8) 0x0000ff00))
      (v * 2 ^ 24 % u32_mod)

-- The `int` that an `std::int16_t` is promoted to: its sign fills the upper half.
abbrev promote_i16 : ℕ → ℕ
promote_i16 v = if ltb v (2 ^ 15) then v else v + (u32_mod - u16_mod)

-- `>>` on an `int` shifts its sign in.
abbrev shift_right_int : ℕ → ℕ → ℕ
shift_right_int v k = if ltb v (2 ^ 31) then v / 2 ^ k else v / 2 ^ k + (u32_mod - 2 ^ 32 / 2 ^ k)

pub endian_swap_i16 : ℕ → ℕ
endian_swap_i16 v =
    let v' = promote_i16 v in bit_or (shift_right_int v' 8) (v' * 2 ^ 8 % u32_mod) % u16_mod

pub endian_swap_i32 : ℕ → ℕ
endian_swap_i32 v =
    bit_or
      (bit_or (bit_or (shift_right_int v 24) (bit_and (v * 2 ^ 8 % u32_mod) 0x00ff0000))
        (bit_and (shift_right_int v 8) 0x0000ff00))
      (v * 2 ^ 24 % u32_mod)

unfoldable pub native_to_big_u16 : ℕ → ℕ
unfolding endian_swap_u16
native_to_big_u16 v = endian_swap_u16 v

pub native_to_big_u32 : ℕ → ℕ
native_to_big_u32 v = endian_swap_u32 v

pub big_to_native_u16 : ℕ → ℕ
big_to_native_u16 v = endian_swap_u16 v

pub big_to_native_u32 : ℕ → ℕ
big_to_native_u32 v = endian_swap_u32 v
