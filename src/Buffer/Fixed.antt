-- ===== src/Buffer/Fixed.antt =====
-- liboac/include/liboac/buffer/fixed.h and fixed.inl, and the functions of buffer/functions.h over
-- a buffer. The definitions in fixed.inl take `std::size_t` where the declarations in fixed.h have
-- `std::uint32_t`, so that they are one type: the target has 32-bit sizes, and sums wrap. The two
-- index members of the class, which nothing reads, are left out.
pub mod Access
pub mod Copies
use open_airbus_cockpit.Prelude.{
  ℕ, zero, suc, ◌+◌, ◌-◌, ◌≤◌, ◌<◌, ◌^◌, List, [], ◌∷◌, Bool, ltb, leb, if◌then◌else◌, length, take,
  drop, replicate, overwrite, Outcome, ok, throws, undefined, diverges, Action, and_then, ◌>>=◌,
  ◌>>◌, return, on_ok, lift,
}
use open_airbus_cockpit.Prelude.Words.{add32, sub32, to_bytes, of_bytes}
use open_airbus_cockpit.Exception.{Exception, index_out_of_bounds, Result, Method}
use open_airbus_cockpit.Buffer.Interface.{Buffer}

pub record Fixed : Type 0 where
  pub bytes : List ℕ
  pub capacity : ℕ

-- `fixed_buffer(size_t)`: the bytes are allocated and set to zero.
unfoldable pub create : ℕ → Fixed
create capacity = record { bytes = replicate capacity 0; capacity = capacity }

-- The exception of `check_bounds`, if it throws one.
pub check_bounds : Fixed → ℕ → ℕ → Result (Unit {0})
check_bounds b offset n =
    if ltb b.capacity (add32 offset n)
    then throws (index_out_of_bounds (add32 offset n) 0 (sub32 b.capacity 1))
    else ok tt

-- `memcpy` from and to the allocated bytes; out of their range it is undefined.
load : Fixed → ℕ → ℕ → Result (List ℕ)
load b offset n =
    if leb (offset + n) (length b.bytes) then ok (take n (drop offset b.bytes)) else undefined

store : List ℕ → ℕ → Method Fixed (Unit {0})
store src offset b =
    if leb (offset + length src) (length b.bytes)
    then (ok tt, record b { bytes = overwrite b.bytes offset src })
    else (undefined, b)

pub read : Fixed → ℕ → ℕ → Result (List ℕ)
unfolding check_bounds load
read b offset n = on_ok (check_bounds b offset n) λ _. load b offset n

pub write : List ℕ → ℕ → Method Fixed (Unit {0})
unfolding check_bounds store
write src offset b = (lift (check_bounds b offset (length src)) >> store src offset) b

-- `copy(src, src_offset, dst_offset, length)` from any buffer: its `read` writes to the target.
pub copy : {B : Type 0} → Buffer B → B → ℕ → ℕ → ℕ → Method Fixed (Unit {0})
unfolding check_bounds store
copy ops src src_offset dst_offset n b =
    (do
      lift (check_bounds b dst_offset n)
      xs ← lift (ops.read src src_offset n)
      store xs dst_offset)
      b

-- `fixed_buffer` as a `Buffer` argument.
abbrev pub fixed_ops : Buffer Fixed
fixed_ops = record { capacity = λ b. b.capacity; read = read; write = write }

-- The copy constructor allocates as many bytes, which start with no value in particular (`junk`), and
-- copies all of them; the move constructor takes the bytes and leaves the other buffer with none.
pub copy_of : List ℕ → Fixed → Result (Unit {0}) × Fixed
unfolding copy
copy_of junk b =
    copy fixed_ops b 0 0 b.capacity (record { bytes = take b.capacity junk; capacity = b.capacity })

pub move_from : Fixed → Fixed × Fixed
move_from b = (b, record { bytes = []; capacity = 0 })

module _ {B : Type 0} (ops : Buffer B) where
  -- `read_as<T>` and `write_as<T>` at a type of `n` bytes.
  unfoldable pub read_as : B → ℕ → ℕ → Result ℕ
  read_as b n offset = on_ok (ops.read b offset n) λ xs. ok (of_bytes xs)

  unfoldable pub write_as : ℕ → ℕ → ℕ → Method B (Unit {0})
  write_as n offset v = ops.write (to_bytes n v) offset

  -- The loop of `fill`, with `k` rounds to go from `i` on. The capacity is read once: `write` keeps it.
  fill_from : ℕ → ℕ → ℕ → Method B (Unit {0})
  fill_from zero i value = return tt
  fill_from (suc k) i value = do ops.write (value ∷ []) i; fill_from k (i + 1) value

  pub fill : ℕ → Method B (Unit {0})
  unfolding fill_from
  fill value b = fill_from (ops.capacity b) 0 value b
