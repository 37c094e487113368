-- ===== src/Endian/Swap.antt =====
-- What the functions of endian.h do to the bytes of a word.
use Prim.Native.Nat.{bit_and, bit_or}
use mathlib.Core.Path.{ap₂}
use open_airbus_cockpit.Prelude.{
  ℕ, ◌+◌, ◌*◌, ◌/◌, ◌%◌, ◌^◌, ◌≤◌, ◌<◌, ◌≡◌, refl, sym, ap, ◌∙◌, [], ◌∷◌, arith, le→ltb,
}
use open_airbus_cockpit.Prelude.Words.{u16_mod, u32_mod, to_bytes}
use open_airbus_cockpit.Prelude.Bits.{
  bit_or_split, bit_or_disjoint, bit_and_split, bit_or_comm, bit_and_comm, bit_and_byte,
  bit_or_ones, zero-bit_or, zero-bit_and,
}
use open_airbus_cockpit.Endian.{
  promote_i16, shift_right_int, endian_swap_u16, endian_swap_u32, endian_swap_i16,
  native_to_big_u16, native_to_big_u32, big_to_native_u16, big_to_native_u32,
}

pub endian_swap_u16_value : (v : ℕ) → v < u16_mod → endian_swap_u16 v ≡ v / 256 + 256 * (v % 256)
unfolding endian_swap_u16
endian_swap_u16_value v h =
    let e : v * 2 ^ 8 ≡ 2 ^ 8 * v = omega arith in
    rw e (omega (arith, bit_or_disjoint 8 (v / 2 ^ 8) v (omega arith)))

mask_third : (v : ℕ) → v < u32_mod → bit_and v 0x00ff0000 ≡ 2 ^ 16 * (v / 2 ^ 16 % 256)
mask_third v h =
    let e : v % 2 ^ 16 + 2 ^ 16 * (v / 2 ^ 16) ≡ v = omega arith in
    ap (λ n. bit_and n 0x00ff0000) (sym e)
    ∙ bit_and_split 16 (v % 2 ^ 16) 0 (v / 2 ^ 16) 0xff (omega arith) (omega arith)
    ∙ omega
        (arith, bit_and_byte (v / 2 ^ 16), bit_and_comm (v % 2 ^ 16) 0, zero-bit_and (v % 2 ^ 16))

mask_second : (v : ℕ) → bit_and v 0x0000ff00 ≡ 2 ^ 8 * (v / 2 ^ 8 % 256)
mask_second v =
    let e : v % 2 ^ 8 + 2 ^ 8 * (v / 2 ^ 8) ≡ v = omega arith in
    ap (λ n. bit_and n 0x0000ff00) (sym e)
    ∙ bit_and_split 8 (v % 2 ^ 8) 0 (v / 2 ^ 8) 0xff (omega arith) (omega arith)
    ∙ omega (arith, bit_and_byte (v / 2 ^ 8), bit_and_comm (v % 2 ^ 8) 0, zero-bit_and (v % 2 ^ 8))

-- Four bytes, shifted to their places in the order in which the code combines them.
or_bytes :
    (a b c d : ℕ)
    → a < 256
    → b < 256
    → c < 256
    → bit_or (bit_or (bit_or a (2 ^ 16 * c)) (2 ^ 8 * b)) (2 ^ 24 * d)
      ≡ a + 2 ^ 8 * b + 2 ^ 16 * c + 2 ^ 24 * d
or_bytes a b c d ha hb hc =
    let outer : bit_or a (2 ^ 16 * c) ≡ a + 2 ^ 8 * (2 ^ 8 * c) =
      bit_or_disjoint 16 a c (omega arith) ∙ omega arith in
    let inner : bit_or (2 ^ 8 * c) b ≡ b + 2 ^ 8 * c =
      bit_or_comm (2 ^ 8 * c) b ∙ bit_or_disjoint 8 b c (omega arith) in
    let eb : 0 + 2 ^ 8 * b ≡ 2 ^ 8 * b = omega arith in
    let middle : bit_or (a + 2 ^ 8 * (2 ^ 8 * c)) (2 ^ 8 * b) ≡ a + 2 ^ 8 * b + 2 ^ 16 * c =
      ap (bit_or (a + 2 ^ 8 * (2 ^ 8 * c))) (sym eb)
      ∙ bit_or_split 8 a 0 (2 ^ 8 * c) b (omega arith) (omega arith)
      ∙ omega (arith, inner, bit_or_comm a 0, zero-bit_or a) in
    rw (outer, middle, bit_or_disjoint 24 (a + 2 ^ 8 * b + 2 ^ 16 * c) d (omega arith)) refl

pub endian_swap_u32_value :
    (v : ℕ)
    → v < u32_mod
    → endian_swap_u32 v
      ≡ v / 2 ^ 24 + 2 ^ 8 * (v / 2 ^ 16 % 256) + 2 ^ 16 * (v / 2 ^ 8 % 256) + 2 ^ 24 * (v % 256)
unfolding endian_swap_u32
endian_swap_u32_value v h =
    let third : bit_and (v * 2 ^ 8 % u32_mod) 0x00ff0000 ≡ 2 ^ 16 * (v / 2 ^ 8 % 256) =
      mask_third (v * 2 ^ 8 % u32_mod) (omega arith) ∙ omega arith in
    let second : bit_and (v / 2 ^ 8) 0x0000ff00 ≡ 2 ^ 8 * (v / 2 ^ 16 % 256) =
      mask_second (v / 2 ^ 8) ∙ omega arith in
    let last : v * 2 ^ 24 % u32_mod ≡ 2 ^ 24 * (v % 256) = omega arith in
    rw (third, second, last)
      (or_bytes (v / 2 ^ 24) (v / 2 ^ 16 % 256) (v / 2 ^ 8 % 256) (v % 256) (omega arith)
        (omega arith) (omega arith))

-- For a 16-bit word, reading it back undoes writing it, and what lies in memory between is a 16-bit word again, whose
-- bytes are those of the first with the most significant one first.
pub native_to_big_u16_lem :
    (v : ℕ)
    → v < u16_mod
    → (big_to_native_u16 (native_to_big_u16 v) ≡ v)
      × (native_to_big_u16 v < u16_mod)
      × (to_bytes 2 (native_to_big_u16 v) ≡ v / 2 ^ 8 ∷ v % 2 ^ 8 ∷ [])
unfolding native_to_big_u16 big_to_native_u16 to_bytes
native_to_big_u16_lem v h =
    let e = endian_swap_u16_value v h in
    let bound : endian_swap_u16 v < u16_mod = omega arith in
    (
      endian_swap_u16_value (endian_swap_u16 v) bound ∙ omega arith,
      bound,
      ap₂ (λ m n. m ∷ n ∷ []) (omega arith) (omega arith),
    )

-- For a 32-bit word, reading it back undoes writing it, and what lies in memory between is a 32-bit word again, whose
-- bytes are those of the first with the most significant one first.
pub native_to_big_u32_lem :
    (v : ℕ)
    → v < u32_mod
    → (big_to_native_u32 (native_to_big_u32 v) ≡ v)
      × (native_to_big_u32 v < u32_mod)
      × (to_bytes 4 (native_to_big_u32 v)
          ≡ v / 2 ^ 24 ∷ v / 2 ^ 16 % 256 ∷ v / 2 ^ 8 % 256 ∷ v % 256 ∷ [])
unfolding native_to_big_u32 big_to_native_u32 to_bytes
native_to_big_u32_lem v h =
    let e = endian_swap_u32_value v h in
    let bound : endian_swap_u32 v < u32_mod = omega arith in
    (
      endian_swap_u32_value (endian_swap_u32 v) bound ∙ omega arith,
      bound,
      ap₂ (λ m n. m ∷ n) (omega arith)
          (ap₂ (λ m n. m ∷ n) (omega arith) (ap₂ (λ m n. m ∷ n ∷ []) (omega arith) (omega arith))),
    )

promote_negative : (v : ℕ) → 2 ^ 15 ≤ v → promote_i16 v ≡ v + 4294901760
promote_negative v h = rw (le→ltb v (2 ^ 15) h) refl

shift_negative : (x : ℕ) → 2 ^ 31 ≤ x → shift_right_int x 8 ≡ x / 256 + 4278190080
shift_negative x h = rw (le→ltb x (2 ^ 31) h) refl

or_negative :
    (v : ℕ)
    → v < u16_mod
    → bit_or (v / 256 + 4294967040) (v * 256 + 4278190080) % u16_mod ≡ 0xff00 + v / 256
or_negative v k =
    let ex : v / 256 + 4294967040 ≡ (v / 256 + 2 ^ 8 * 0xff) + 2 ^ 16 * 0xffff = omega arith in
    let ey : v * 256 + 4278190080 ≡ (0 + 2 ^ 8 * (v % 256)) + 2 ^ 16 * (v / 256 + 0xff00) =
      omega arith in
    let high =
      bit_or_split 16 (v / 256 + 2 ^ 8 * 0xff) (0 + 2 ^ 8 * (v % 256)) 0xffff (v / 256 + 0xff00)
        (omega arith) (omega arith) in
    let low = bit_or_split 8 (v / 256) 0 0xff (v % 256) (omega arith) (omega arith) in
    rw
      (
        ex,
        ey,
        high,
        low,
        bit_or_comm (v / 256) 0,
        zero-bit_or (v / 256),
        bit_or_ones (v % 256) (omega arith),
      )
      (omega arith)

-- The version for signed words does not swap the bytes of a negative one: its upper byte becomes
-- all ones and its lower byte is lost.
pub endian_swap_i16_negative :
    (v : ℕ) → 2 ^ 15 ≤ v → v < u16_mod → endian_swap_i16 v ≡ 0xff00 + v / 256
unfolding endian_swap_i16
endian_swap_i16_negative v h k =
    let shifted : (v + 4294901760) / 256 + 4278190080 ≡ v / 256 + 4294967040 = omega arith in
    let doubled : (v + 4294901760) * 2 ^ 8 % u32_mod ≡ v * 256 + 4278190080 = omega arith in
    rw (promote_negative v h, shift_negative (v + 4294901760) (omega arith), shifted, doubled)
      (or_negative v k)

-- A swapped word is a word, whatever it was made of.
pub big_to_native_u16_bound : (v : ℕ) → big_to_native_u16 v < u16_mod
unfolding big_to_native_u16 endian_swap_u16
big_to_native_u16_bound v = omega arith
