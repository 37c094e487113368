-- ===== src/Fsuipc/DummyAdapter.antt =====
-- `dummy_user_adapter` of liboac/include/liboac/fsuipc/client.h and liboac/src/fsuipc/client.cpp. Its buffer has 0xffff
-- bytes; an access outside of it is undefined. Sums of an address, which are of type `int`, do not wrap.
pub mod Memory
use open_airbus_cockpit.Prelude.{
  ℕ, zero, suc, ◌+◌, ◌*◌, ◌/◌, ◌%◌, ◌^◌, ltb, if◌then◌else◌, List, [], ◌∷◌, ◌++◌, length, Option,
  none, some, Outcome, ok, undefined, on_ok, Action, and_then, ◌>>=◌, ◌>>◌, return,
}
use open_airbus_cockpit.Prelude.Words.{add32}
use open_airbus_cockpit.Fsuipc.Offset.{
  OffsetLength, offset_len_byte, offset_len_word, offset_len_dword, Offset, ValuedOffset,
  FsuipcException,
}
use open_airbus_cockpit.Fsuipc.Client.{UserAdapter}

pub record DummyAdapter : Type 0 where
  pub buffer : List ℕ
  pub read_requests : List (Offset × ℕ)
  pub write_requests : List ValuedOffset

-- An element of an array, and the array after an assignment to it.
abbrev pub element : List ℕ → ℕ → Option ℕ
element [] i = none
element (x ∷ xs) zero = some x
element (x ∷ xs) (suc i) = element xs i

abbrev pub set_element : List ℕ → ℕ → ℕ → Option (List ℕ)
set_element [] i v = none
set_element (x ∷ xs) zero v = some (v ∷ xs)
set_element (x ∷ xs) (suc i) v = elim (set_element xs i v) [ none ↦ none | some ys ↦ some (x ∷ ys) ]

-- `value += _buffer[i] << bits`
abbrev pub add_byte : ℕ → ℕ → List ℕ → ℕ → Outcome FsuipcException ℕ
add_byte i bits buffer value = elim (element buffer i) [
  | none ↦ undefined
  | some b ↦ ok (add32 value (b * 2 ^ bits % 2 ^ 32))
]

-- `_buffer[i] = val >> bits`
abbrev pub put_byte : ℕ → ℕ → ℕ → Action FsuipcException (List ℕ) (Unit {0})
put_byte i bits val buffer = elim (set_element buffer i (val / 2 ^ bits % 256)) [
  | none ↦ (undefined, buffer)
  | some buffer' ↦ return tt buffer'
]

-- The cases of the `switch` of `read_value_from_buffer`, each of which goes on with the next.
abbrev pub read_case : ℕ → OffsetLength → List ℕ → ℕ → Outcome FsuipcException ℕ
read_case addr offset_len_byte buffer value = add_byte addr 0 buffer value
read_case addr offset_len_word buffer value =
    on_ok (add_byte (addr + 1) 8 buffer value) λ v. add_byte addr 0 buffer v
read_case addr offset_len_dword buffer value = on_ok (add_byte (addr + 3) 24 buffer value) λ v3.
    on_ok (add_byte (addr + 2) 16 buffer v3)
      λ v2. on_ok (add_byte (addr + 1) 8 buffer v2) λ v1. add_byte addr 0 buffer v1

unfoldable pub read_value_from_buffer : ℕ → OffsetLength → List ℕ → Outcome FsuipcException ℕ
read_value_from_buffer addr len buffer = read_case addr len buffer 0

-- The `switch` does the same here.
unfoldable pub write_value_to_buffer :
    ℕ → OffsetLength → ℕ → Action FsuipcException (List ℕ) (Unit {0})
write_value_to_buffer addr offset_len_byte val = put_byte addr 0 val
write_value_to_buffer addr offset_len_word val = do put_byte (addr + 1) 8 val; put_byte addr 0 val
write_value_to_buffer addr offset_len_dword val = do
  put_byte (addr + 3) 24 val
  put_byte (addr + 2) 16 val
  put_byte (addr + 1) 8 val
  put_byte addr 0 val

unfoldable pub schedule_read : ℕ → Offset → Action FsuipcException DummyAdapter (Unit {0})
schedule_read i o a = return tt (record a { read_requests = a.read_requests ++ ((o, i) ∷ []) })

unfoldable pub schedule_write : ValuedOffset → Action FsuipcException DummyAdapter (Unit {0})
schedule_write v a = return tt (record a { write_requests = a.write_requests ++ (v ∷ []) })

-- The loops of `process_write_requests` and `process_read_requests`.
unfoldable pub write_requested : List ValuedOffset → Action FsuipcException (List ℕ) (Unit {0})
unfolding write_value_to_buffer
write_requested [] = return tt
write_requested (v ∷ vs) =
    write_value_to_buffer v.offset.address v.offset.length v.value >> write_requested vs

unfoldable pub read_requested :
    List (Offset × ℕ) → List ℕ → List ℕ → Outcome FsuipcException (List ℕ)
unfolding read_value_from_buffer
read_requested [] buffer values = ok values
read_requested ((o, i) ∷ reqs) buffer values =
    on_ok (read_value_from_buffer o.address o.length buffer) λ v. elim (set_element values i v) [
      | none ↦ undefined
      | some values' ↦ read_requested reqs buffer values'
    ]

unfoldable pub process : List ℕ → Action FsuipcException DummyAdapter (List ℕ)
unfolding write_requested read_requested
process values = do
  λ a.
      let (o, buffer) = write_requested a.write_requests a.buffer in
      (o, record a { buffer = buffer })
  λ a. return tt (record a { write_requests = [] })
  values' ← λ a. (read_requested a.read_requests a.buffer values, a)
  λ a. return tt (record a { read_requests = [] })
  return values'

abbrev pub dummy_user_adapter : UserAdapter DummyAdapter
dummy_user_adapter = record { read = schedule_read; write = schedule_write; process = process }
