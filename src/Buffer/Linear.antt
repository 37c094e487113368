-- ===== src/Buffer/Linear.antt =====
-- `linear_stream_buffer_base` of liboac/include/liboac/buffer/linear.h and linear.inl, over any buffer
-- (`_self`). `read` returns the number of bytes and the bytes that it puts at `dest`. The constructors that
-- take a base and the hand-over of data to Boost.Asio are modelled up to what they store and offer.
pub mod Laws
pub mod Streams
use open_airbus_cockpit.Prelude.{
  ℕ, ◌+◌, List, [], ◌∷◌, Option, none, some, ltb, if◌then◌else◌, length, take, ok, and_then, ◌>>=◌,
  ◌>>◌, return, lift,
}
use open_airbus_cockpit.Prelude.Words.{add32, sub32}
use open_airbus_cockpit.Exception.{Exception, Result, Method}
use open_airbus_cockpit.Buffer.Interface.{Buffer}
use open_airbus_cockpit.Buffer.Completion.{ErrorCode, complete}

pub record Linear (B : Type 0) : Type 0 where
  pub self : B
  pub read_index : ℕ
  pub write_index : ℕ
  pub mark : Option ℕ

module _ {B : Type 0} (ops : Buffer B) where
  unfoldable pub create : B → Linear B
  create self = record { self = self; read_index = 0; write_index = 0; mark = none }

  pub available_for_read : Linear B → ℕ
  available_for_read l = sub32 l.write_index l.read_index

  pub available_for_write : Linear B → ℕ
  available_for_write l = sub32 (ops.capacity l.self) l.write_index

  pub read : ℕ → Method (Linear B) (ℕ × List ℕ)
  read count l =
      let remain = sub32 l.write_index l.read_index in
      let nread = if ltb count remain then count else remain in
      (do xs ← lift (ops.read l.self l.read_index nread); advance nread; return (nread, xs)) l
    where
      advance : ℕ → Method (Linear B) (Unit {0})
      advance nread m = (ok tt, record m { read_index = add32 m.read_index nread })

  -- A call on `_self`.
  on_self : {A : Type 0} → Method B A → Method (Linear B) A
  on_self m l = let (r, b) = m l.self in (r, record l { self = b })

  pub write : List ℕ → Method (Linear B) ℕ
  unfolding on_self
  write src l =
      let remain = sub32 (ops.capacity l.self) l.write_index in
      let nwrite = if ltb (length src) remain then length src else remain in
      (do on_self (ops.write (take nwrite src) l.write_index); advance nwrite; return nwrite) l
    where
      advance : ℕ → Method (Linear B) (Unit {0})
      advance nwrite m = (ok tt, record m { write_index = add32 m.write_index nwrite })

  pub set_mark : Linear B → Linear B
  set_mark l = record l { mark = some l.read_index }

  pub unset_mark : Linear B → Linear B
  unset_mark l = record l { mark = none }

  pub reset : Linear B → Linear B
  reset l = elim l.mark [ none ↦ l | some m ↦ record l { read_index = m } ]

  -- The memory that is offered to a receiving and to a sending call: an offset and a length.
  pub asio_mutable_buffers : ℕ → Linear B → List (ℕ × ℕ)
  unfolding available_for_write
  asio_mutable_buffers nbytes l =
      let available = available_for_write l in
      (l.write_index, if ltb available nbytes then available else nbytes) ∷ []

  pub asio_const_buffers : ℕ → Linear B → List (ℕ × ℕ)
  unfolding available_for_read
  asio_const_buffers nbytes l =
      let available = available_for_read l in
      (l.read_index, if ltb available nbytes then available else nbytes) ∷ []

  -- The handlers that `async_write_some_from` and `async_read_some_to` pass to the stream.
  pub on_async_write : ErrorCode → ℕ → Method (Linear B) ℕ
  on_async_write = complete (λ n l. record l { write_index = add32 l.write_index n })

  pub on_async_read : ErrorCode → ℕ → Method (Linear B) ℕ
  on_async_read = complete (λ n l. record l { read_index = add32 l.read_index n })
