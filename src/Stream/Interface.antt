-- ===== src/Stream/Interface.antt =====
-- The operations that liboac/include/liboac/stream/functions.h and the message serializers ask of a
-- stream, and what a stream promises.
use open_airbus_cockpit.Prelude.{ℕ, ◌+◌, ◌≤◌, ◌<◌, ◌≡◌, List, ◌++◌, length, take, ok}
use open_airbus_cockpit.Exception.{Method}

-- `read(dest, count)` returns a number and puts bytes at `dest`; `write(src, count)` returns a number.
pub record InputStream (S : Type 0) : Type 0 where
  pub read : ℕ → Method S (ℕ × List ℕ)

pub record OutputStream (S : Type 0) : Type 0 where
  pub write : List ℕ → Method S ℕ

-- A stream that still has `content` to deliver: a read returns how many bytes it took from the front,
-- at most as many as asked for, and none only where none were asked for or none are left.
pub record IsInput {S : Type 0} (input : InputStream S) (content : S → List ℕ) (Ready : S → Type 0)
    : Type 0 where
  pub delivers :
      (s : S) (count : ℕ)
      → Ready s
      → (xs : List ℕ) × (s' : S) × (input.read count s ≡ (ok (length xs, xs), s'))
        × (content s ≡ xs ++ content s')
        × (length xs ≤ count)
        × (0 < count → 0 < length (content s) → 0 < length xs)
        × Ready s'

-- A stream with `room` for so many more bytes: a write appends as many as it returns, and none only
-- where none were given or none fit.
pub record IsOutput {S : Type 0} (output : OutputStream S) (content : S → List ℕ) (room : S → ℕ)
    (Ready : S → Type 0) : Type 0 where
  pub accepts :
      (s : S) (src : List ℕ)
      → Ready s
      → (n : ℕ) × (s' : S) × (output.write src s ≡ (ok n, s'))
        × (content s' ≡ content s ++ take n src)
        × (n ≤ length src)
        × (room s' + n ≡ room s)
        × (0 < length src → 0 < room s → 0 < n)
        × Ready s'
