-- ===== src/Buffer/Ring.antt =====
-- `ring_stream_buffer_base` of liboac/include/liboac/buffer/ring.h and ring.inl, over any buffer
-- (`_self`). `read` and `write` call themselves once they reach the end of the buffer: those calls take fuel, and
-- `diverges` says that it ran out.
pub mod Window
pub mod Laws
pub mod Additions
pub mod ReadRuns
pub mod Reading
pub mod WriteRuns
pub mod Writing
pub mod Marks
pub mod Faults
pub mod Streams
pub mod Inputs
use open_airbus_cockpit.Prelude.{
  ℕ, zero, suc, ◌%◌, min, List, [], ◌∷◌, ◌++◌, Bool, Option, none, some, ltb, if◌then◌else◌, length,
  take, drop, ok, diverges, and_then, ◌>>=◌, ◌>>◌, return, lift,
}
use open_airbus_cockpit.Prelude.Words.{add32, sub32}
use open_airbus_cockpit.Exception.{Exception, Method}
use open_airbus_cockpit.Buffer.Interface.{Buffer}
use open_airbus_cockpit.Buffer.Completion.{ErrorCode, complete}

pub record Ring (B : Type 0) : Type 0 where
  pub self : B
  pub read_index : ℕ
  pub write_index : ℕ
  pub bytes_written : ℕ
  pub mark : Option ℕ
  pub dist_from_mark : ℕ

abbrev modify : {S : Type 0} → (S → S) → Method S (Unit {0})
modify f s = (ok tt, f s)

module _ {B : Type 0} (ops : Buffer B) where
  pub create : B → Ring B
  create self = record {
    self = self;
    read_index = 0;
    write_index = 0;
    bytes_written = 0;
    mark = none;
    dist_from_mark = 0;
  }

  pub available_for_read : Ring B → ℕ
  available_for_read r = r.bytes_written

  pub available_for_write : Ring B → ℕ
  available_for_write r = sub32 (sub32 (ops.capacity r.self) r.bytes_written) r.dist_from_mark

  pub is_broken : Ring B → Bool
  is_broken r = ltb r.write_index r.read_index

  inc_dist_from_mark : ℕ → Ring B → Ring B
  inc_dist_from_mark amount r = elim r.mark [
    | none ↦ r
    | some _ ↦ record r { dist_from_mark = add32 r.dist_from_mark amount }
  ]

  -- The statements by which `read` takes bytes off the front.
  pub take_off : ℕ → Ring B → Ring B
  unfolding inc_dist_from_mark
  take_off n r = inc_dist_from_mark n (record r { bytes_written = sub32 r.bytes_written n })

  abbrev pub read_to : ℕ → Ring B → Ring B
  read_to i r = record r { read_index = i }

  abbrev pub write_to : ℕ → Ring B → Ring B
  write_to i r = record r { write_index = i }

  pub put_on : ℕ → Ring B → Ring B
  put_on n r = record r { bytes_written = add32 r.bytes_written n }

  -- A call on `_self`.
  pub on_self : {A : Type 0} → Method B A → Method (Ring B) A
  on_self m r = let (o, b) = m r.self in (o, record r { self = b })

  pub read_rounds : ℕ → ℕ → Method (Ring B) (ℕ × List ℕ)
  unfolding available_for_read is_broken take_off
  read_rounds zero asked r = (diverges, r)
  read_rounds (suc fuel) asked r =
      let count = min asked (available_for_read r) in
      let rem = sub32 (ops.capacity r.self) r.read_index in
      let final_count = min count rem in
      if is_broken r
      then (do
        xs ← lift (ops.read r.self r.read_index final_count)
        modify (take_off final_count)
        if ltb count rem
            then (modify (read_to (add32 r.read_index count)) >> return (count, xs))
            else (do
              modify (read_to 0)
              (n, ys) ← read_rounds fuel (sub32 count rem)
              return (add32 rem n, xs ++ ys)))
          r
      else (do
        xs ← lift (ops.read r.self r.read_index count)
        modify (read_to (add32 r.read_index count))
        modify (take_off count)
        return (count, xs))
          r

  pub write_rounds : ℕ → List ℕ → Method (Ring B) ℕ
  unfolding available_for_write is_broken put_on on_self
  write_rounds zero src r = (diverges, r)
  write_rounds (suc fuel) src r =
      let count = min (length src) (available_for_write r) in
      let rem = sub32 (ops.capacity r.self) r.write_index in
      let final_count = min count rem in
      if is_broken r
      then (do
        on_self (ops.write (take count src) r.write_index)
        modify (write_to (add32 r.write_index count))
        modify (put_on count)
        return count)
          r
      else (do
        on_self (ops.write (take final_count src) r.write_index)
        modify (put_on final_count)
        if ltb count rem
            then (modify (write_to (add32 r.write_index count)) >> return count)
            else (do
              modify (write_to 0)
              n ← write_rounds fuel (drop rem (take count src))
              return (add32 rem n)))
          r

  -- The calls are at most two deep where the capacity is not zero.
  pub read : ℕ → Method (Ring B) (ℕ × List ℕ)
  unfolding read_rounds
  read count = read_rounds 2 count

  pub write : List ℕ → Method (Ring B) ℕ
  unfolding write_rounds
  write src = write_rounds 2 src

  pub set_mark : Ring B → Ring B
  set_mark r = record r { mark = some r.read_index }

  pub unset_mark : Ring B → Ring B
  unset_mark r = record r { mark = none; dist_from_mark = 0 }

  pub reset : Ring B → Ring B
  reset r = elim r.mark [
    | none ↦ r
    | some m ↦ record r {
      bytes_written = add32 r.bytes_written r.dist_from_mark;
      dist_from_mark = 0;
      read_index = m;
    }
  ]

  -- The memory that is offered to a receiving and to a sending call: offsets and lengths.
  pub asio_mutable_buffers : ℕ → Ring B → List (ℕ × ℕ)
  unfolding available_for_write is_broken
  asio_mutable_buffers asked r =
      let nbytes = min asked (available_for_write r) in
      let chunk_len = min nbytes (sub32 (ops.capacity r.self) r.write_index) in
      if is_broken r
      then (r.write_index, min nbytes (sub32 r.read_index r.write_index)) ∷ []
      else (r.write_index, chunk_len) ∷ (0, min (sub32 nbytes chunk_len) r.read_index) ∷ []

  pub asio_const_buffers : ℕ → Ring B → List (ℕ × ℕ)
  unfolding available_for_write is_broken
  asio_const_buffers asked r =
      let nbytes = min asked (available_for_write r) in
      let chunk_len = min nbytes (sub32 (ops.capacity r.self) r.read_index) in
      if is_broken r
      then (r.read_index, chunk_len) ∷ (0, min (sub32 nbytes chunk_len) r.write_index) ∷ []
      else (r.read_index, min nbytes (sub32 r.write_index r.read_index)) ∷ []

  -- The handlers that `async_write_some_from` and `async_read_some_to` pass to the stream.
  pub on_async_write : ErrorCode → ℕ → Method (Ring B) ℕ
  unfolding put_on
  on_async_write =
      complete (λ n r. put_on n (write_to (add32 r.write_index n % ops.capacity r.self) r))

  pub on_async_read : ErrorCode → ℕ → Method (Ring B) ℕ
  unfolding take_off
  on_async_read =
      complete (λ n r. take_off n (read_to (add32 r.read_index n % ops.capacity r.self) r))
