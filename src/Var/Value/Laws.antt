-- ===== src/Var/Value/Laws.antt =====
-- The values that the constructors of `variable_value` make, and what its accessors return on them.
use open_airbus_cockpit.Prelude.{
  ℕ, ◌+◌, ◌<◌, ◌≡◌, refl, ap, ◌∙◌, arith, ◌^◌, ◌≢◌, ◌++◌, [], Bool, true, false, drop, length,
  append-nil, take_all, drop_all, length-replicate, replicate, ok, throws, on_ok,
}
use open_airbus_cockpit.Prelude.Words.{
  u8_mod, u16_mod, u32_mod, to_bytes, of_bytes, length-to_bytes, of_bytes-to_bytes,
}
use open_airbus_cockpit.Exception.{Result, invalid_type_error}
use open_airbus_cockpit.Buffer.Fixed.{Fixed, create, fixed_ops, read_as, write_as}
use open_airbus_cockpit.Buffer.Fixed.Access.{IsValid, fixed_ops-IsBuffer, create-IsValid, write_run}
use open_airbus_cockpit.Var.Types.{VariableType, boolean, byte, word, dword, float}
use open_airbus_cockpit.Var.Value.{
  VariableValue, make_buffer_of, bool_byte, from_bool, from_byte, from_word, from_dword, from_float,
  as_bool, as_byte, as_word, as_dword, as_float,
}

-- A buffer that holds just the bytes of a word.
abbrev pub buffer_of : ℕ → ℕ → Fixed
buffer_of n v = record { bytes = to_bytes n v; capacity = n }

abbrev pub value_of : VariableType → ℕ → ℕ → VariableValue
value_of t n v = record { type = t; buffer = buffer_of n v }

make_buffer_of_lem : (n v : ℕ) → n < u32_mod → make_buffer_of n v ≡ ok (buffer_of n v)
unfolding make_buffer_of write_as create
make_buffer_of_lem n v h =
    let bytes = to_bytes n v in
    let size : length bytes ≡ n = length-to_bytes n v in
    let within = write_run (create n) bytes 0 (create-IsValid n h) (omega arith) in
    let blank : drop (0 + length bytes) (replicate n 0) ≡ [] =
      drop_all (0 + length bytes) (replicate n 0) (omega (arith, length-replicate {A = ℕ} n 0)) in
    ap (λ r. on_ok r.0 λ _. ok r.1) within
    ∙ ap (λ bs. ok (record { bytes = bytes ++ bs; capacity = n })) blank
    ∙ ap (λ bs. ok (record { bytes = bs; capacity = n })) (append-nil bytes)

pub read_as-buffer_of :
    (n v : ℕ) → n < u32_mod → v < 256 ^ n → read_as fixed_ops (buffer_of n v) n 0 ≡ ok v
unfolding read_as
read_as-buffer_of n v h k =
    let bytes = to_bytes n v in
    let size : length bytes ≡ n = length-to_bytes n v in
    let valid : IsValid (buffer_of n v) = record { sized = size; small = h } in
    let all = fixed_ops-IsBuffer.read_within (buffer_of n v) 0 n valid (omega arith) in
    ap (λ r. on_ok r λ xs. ok (of_bytes xs)) all
    ∙ ap (λ xs. ok (of_bytes xs)) (take_all n bytes (omega arith))
    ∙ ap ok (of_bytes-to_bytes n v k)

pub from_bool_lem : (b : Bool) → from_bool b ≡ ok (value_of boolean 1 (bool_byte b))
unfolding from_bool
from_bool_lem b = rw (make_buffer_of_lem 1 (bool_byte b) (omega arith)) refl

pub from_byte_lem : (v : ℕ) → from_byte v ≡ ok (value_of byte 1 v)
unfolding from_byte
from_byte_lem v = rw (make_buffer_of_lem 1 v (omega arith)) refl

pub from_word_lem : (v : ℕ) → from_word v ≡ ok (value_of word 2 v)
unfolding from_word
from_word_lem v = rw (make_buffer_of_lem 2 v (omega arith)) refl

pub from_dword_lem : (v : ℕ) → from_dword v ≡ ok (value_of dword 4 v)
unfolding from_dword
from_dword_lem v = rw (make_buffer_of_lem 4 v (omega arith)) refl

pub from_float_lem : (v : ℕ) → from_float v ≡ ok (value_of float 4 v)
unfolding from_float
from_float_lem v = rw (make_buffer_of_lem 4 v (omega arith)) refl

pub as_bool_lem : (b : Bool) → as_bool (value_of boolean 1 (bool_byte b)) ≡ ok b
unfolding as_bool
as_bool_lem true = rw (read_as-buffer_of 1 1 (omega arith) (omega arith)) refl
as_bool_lem false = rw (read_as-buffer_of 1 0 (omega arith) (omega arith)) refl

pub as_byte_lem : (v : ℕ) → v < u8_mod → as_byte (value_of byte 1 v) ≡ ok v
unfolding as_byte
as_byte_lem v h = read_as-buffer_of 1 v (omega arith) h

pub as_word_lem : (v : ℕ) → v < u16_mod → as_word (value_of word 2 v) ≡ ok v
unfolding as_word
as_word_lem v h = read_as-buffer_of 2 v (omega arith) h

pub as_dword_lem : (v : ℕ) → v < u32_mod → as_dword (value_of dword 4 v) ≡ ok v
unfolding as_dword
as_dword_lem v h = read_as-buffer_of 4 v (omega arith) h

pub as_float_lem : (v : ℕ) → v < u32_mod → as_float (value_of float 4 v) ≡ ok v
unfolding as_float
as_float_lem v h = read_as-buffer_of 4 v (omega arith) h

-- What goes into a value comes out of it, for each of the five types at every value of its width; a float is its bit
-- pattern.
pub as-from :
    (b : Bool) (small word_value dword_value float_value : ℕ)
    → small < u8_mod
    → word_value < u16_mod
    → dword_value < u32_mod
    → float_value < u32_mod
    → (on_ok (from_bool b) as_bool ≡ ok b)
      × (on_ok (from_byte small) as_byte ≡ ok small)
      × (on_ok (from_word word_value) as_word ≡ ok word_value)
      × (on_ok (from_dword dword_value) as_dword ≡ ok dword_value)
      × (on_ok (from_float float_value) as_float ≡ ok float_value)
as-from b x w d v hx hw hd hv = (
  rw (from_bool_lem b) (as_bool_lem b),
  rw (from_byte_lem x) (as_byte_lem x hx),
  rw (from_word_lem w) (as_word_lem w hw),
  rw (from_dword_lem d) (as_dword_lem d hd),
  rw (from_float_lem v) (as_float_lem v hv),
)

-- Whether the accessor for a type returns.
abbrev pub access : VariableType → VariableValue → Result (Unit {0})
access boolean v = on_ok (as_bool v) λ _. ok tt
access byte v = on_ok (as_byte v) λ _. ok tt
access word v = on_ok (as_word v) λ _. ok tt
access dword v = on_ok (as_dword v) λ _. ok tt
access float v = on_ok (as_float v) λ _. ok tt

-- An accessor refuses a value of any other type than its own. The exception names the value's type as the expected one,
-- and the type that was asked for as the actual one.
pub as_refuses :
    (v : VariableValue) (t : VariableType)
    → v.type ≢ t
    → access t v ≡ throws (invalid_type_error v.type t)
unfolding as_bool as_byte as_word as_dword as_float
as_refuses v boolean h = ground arith
as_refuses v byte h = ground arith
as_refuses v word h = ground arith
as_refuses v dword h = ground arith
as_refuses v float h = ground arith
