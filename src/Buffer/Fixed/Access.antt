-- ===== src/Buffer/Fixed/Access.antt =====
-- Which accesses of a fixed buffer succeed, and what they do.
use open_airbus_cockpit.Prelude.{
  ℕ, ◌+◌, ◌≤◌, ◌<◌, ◌≡◌, refl, arith, List, length, take, drop, overwrite, length-overwrite,
  length-replicate, leb, if◌then◌else◌, ok, throws, undefined,
}
use open_airbus_cockpit.Prelude.Words.{u32_mod, add32, sub32}
use open_airbus_cockpit.Exception.{index_out_of_bounds}
use open_airbus_cockpit.Buffer.Interface.{IsBuffer}
use open_airbus_cockpit.Buffer.Fixed.{Fixed, create, read, write, fixed_ops}

pub record IsValid (b : Fixed) : Type 0 where
  pub sized : length b.bytes ≡ b.capacity
  pub small : b.capacity < u32_mod

pub create-IsValid : (n : ℕ) → n < u32_mod → IsValid (create n)
unfolding create
create-IsValid n h = record { sized = length-replicate n 0; small = h }

-- An access of a valid buffer whose end does not pass 2^32 reads and writes the bytes at its offset if it ends within
-- the capacity, and otherwise throws with the end and the bounds and changes nothing.
pub read_write_bounds :
    {b : Fixed} (offset : ℕ) (src : List ℕ)
    → IsValid b
    → offset + length src < u32_mod
    → let n = length src in
      let within = leb (offset + n) b.capacity in
      let e = index_out_of_bounds (offset + n) 0 (sub32 b.capacity 1) in
      (read b offset n ≡ (if within then ok (take n (drop offset b.bytes)) else throws e))
      × (write src offset b ≡ (
          if within
          then (ok tt, record b { bytes = overwrite b.bytes offset src })
          else (throws e, b)))
unfolding read write
read_write_bounds offset src v h =
    let e : add32 offset (length src) ≡ offset + length src = omega arith in
    (ground arith, ground arith)

-- The check adds in 32 bits: an access that ends past 2^32 is let through when the wrapped end is
-- within the capacity, and then leaves the allocated bytes.
pub access_wraps :
    {b : Fixed} (offset : ℕ) (src : List ℕ)
    → IsValid b
    → u32_mod ≤ offset + length src
    → offset + length src ≤ u32_mod + b.capacity
    → (read b offset (length src) ≡ undefined) × (write src offset b ≡ (undefined, b))
unfolding read write
access_wraps offset src v h k = (ground arith, ground arith)

pub read_beyond :
    (b : Fixed) (offset n : ℕ)
    → IsValid b
    → offset + n < u32_mod
    → b.capacity < offset + n
    → read b offset n ≡ throws (index_out_of_bounds (offset + n) 0 (sub32 b.capacity 1))
unfolding read
read_beyond b offset n v h beyond =
    let e : add32 offset n ≡ offset + n = omega arith in ground arith

read_within :
    (b : Fixed) (offset n : ℕ)
    → IsValid b
    → offset + n ≤ b.capacity
    → read b offset n ≡ ok (take n (drop offset b.bytes))
unfolding read
read_within b offset n v h = ground arith

pub write_run :
    (b : Fixed) (src : List ℕ) (offset : ℕ)
    → IsValid b
    → offset + length src ≤ b.capacity
    → write src offset b ≡ (ok tt, record b { bytes = overwrite b.bytes offset src })
unfolding write
write_run b src offset v h = ground arith

write_within :
    (b : Fixed) (src : List ℕ) (offset : ℕ)
    → IsValid b
    → offset + length src ≤ b.capacity
    → (b' : Fixed) × (write src offset b ≡ (ok tt, b'))
      × (b'.bytes ≡ overwrite b.bytes offset src)
      × (b'.capacity ≡ b.capacity)
      × IsValid b'
write_within b src offset v h =
    let written = record b { bytes = overwrite b.bytes offset src } in
    let sized = length-overwrite b.bytes offset src (omega arith) in
    (
      written,
      write_run b src offset v h,
      refl,
      refl,
      record { sized = omega arith; small = v.small },
    )

pub fixed_ops-IsBuffer : IsBuffer fixed_ops (λ b. b.bytes) IsValid
fixed_ops-IsBuffer = record {
  length-bytes = λ b v. v.sized;
  capacity_bound = λ b v. v.small;
  read_within = read_within;
  write_within = write_within;
}
