-- ===== src/Stream.antt =====
-- liboac/include/liboac/stream/functions.h: whole reads and writes over streams whose `read` and
-- `write` may take fewer bytes than they are asked for.
pub mod Interface
pub mod Reads
pub mod Writes
pub mod Safe
use open_airbus_cockpit.Prelude.{
  ℕ, zero, suc, ◌+◌, ◌==◌, if◌then◌else◌, List, [], ◌∷◌, ◌++◌, length, take, drop, Outcome, ok,
  diverges, and_then, ◌>>=◌, ◌>>◌, return, throw, lift,
}
use open_airbus_cockpit.Prelude.Words.{sub32, to_bytes, of_bytes}
use open_airbus_cockpit.Exception.{Exception, eof_error, Method}
use Interface.{InputStream, OutputStream}

module _ {S : Type 0} (input : InputStream S) where
  -- The loop of `read_all`, with fuel; `diverges` says that the fuel ran out. The bytes are those put
  -- at `dest`.
  read_rounds : ℕ → ℕ → Method S (List ℕ)
  read_rounds zero count = if count == 0 then return [] else lift diverges
  read_rounds (suc fuel) count = if count == 0 then return [] else (do
    (nread, xs) ← input.read count
    if nread == 0
        then throw eof_error
        else (do rest ← read_rounds fuel (sub32 count nread); return (take nread xs ++ rest)))

  -- Each round reads a byte at least, so `count` rounds are enough.
  pub read_all : ℕ → Method S (List ℕ)
  unfolding read_rounds
  read_all count = read_rounds count count

  -- `read_as<T>` at a type of `n` bytes.
  pub read_as : ℕ → Method S ℕ
  read_as n = do xs ← read_all n; return (of_bytes xs)

  pub read_as_string : ℕ → Method S (List ℕ)
  read_as_string len = read_all len

module _ {S : Type 0} (output : OutputStream S) where
  -- The loop of `write_all`: the list is what is left to write.
  write_rounds : ℕ → List ℕ → Method S (Unit {0})
  write_rounds zero src = if length src == 0 then return tt else lift diverges
  write_rounds (suc fuel) src = if length src == 0 then return tt else (do
    nwrite ← output.write src
    if nwrite == 0 then throw eof_error else write_rounds fuel (drop nwrite src))

  pub write_all : List ℕ → Method S (Unit {0})
  unfolding write_rounds
  write_all src = write_rounds (length src) src

  pub write_as_string : List ℕ → Method S (Unit {0})
  write_as_string str = write_all str

  -- `write_as<T>` at a type of `n` bytes.
  pub write_as : ℕ → ℕ → Method S (Unit {0})
  write_as n v = write_all (to_bytes n v)
