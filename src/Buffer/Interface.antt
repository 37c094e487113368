-- ===== src/Buffer/Interface.antt =====
-- The operations that the class templates of liboac/include/liboac/buffer ask of a `Buffer`
-- argument, and what they rely on.
use open_airbus_cockpit.Prelude.{ℕ, ◌+◌, ◌≤◌, ◌<◌, ◌≡◌, List, take, drop, overwrite, length, ok}
use open_airbus_cockpit.Prelude.Words.{u32_mod}
use open_airbus_cockpit.Exception.{Result, Method}

-- `capacity()`, `read(dst, offset, length)` with the bytes that go to `dst`, and
-- `write(src, offset, length)` with the bytes at `src`.
pub record Buffer (B : Type 0) : Type 0 where
  pub capacity : B → ℕ
  pub read : B → ℕ → ℕ → Result (List ℕ)
  pub write : List ℕ → ℕ → Method B (Unit {0})

-- A buffer holds as many bytes as its capacity says; an access within the capacity succeeds, and
-- reads or overwrites the bytes at its offset.
pub record IsBuffer {B : Type 0} (ops : Buffer B) (bytes : B → List ℕ) (Valid : B → Type 0)
    : Type 0 where
  pub length-bytes : (b : B) → Valid b → length (bytes b) ≡ ops.capacity b
  pub capacity_bound : (b : B) → Valid b → ops.capacity b < u32_mod
  pub read_within :
      (b : B) (offset n : ℕ)
      → Valid b
      → offset + n ≤ ops.capacity b
      → ops.read b offset n ≡ ok (take n (drop offset (bytes b)))
  pub write_within :
      (b : B) (src : List ℕ) (offset : ℕ)
      → Valid b
      → offset + length src ≤ ops.capacity b
      → (b' : B) × (ops.write src offset b ≡ (ok tt, b'))
        × (bytes b' ≡ overwrite (bytes b) offset src)
        × (ops.capacity b' ≡ ops.capacity b)
        × Valid b'
