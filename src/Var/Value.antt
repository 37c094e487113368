-- ===== src/Var/Value.antt =====
-- `variable_value` of flightvars/include/flightvars/var.h and flightvars/src/lib/api.cpp: a type and
-- a buffer that holds a value of it. A `float` is its bit pattern, and a `bool` is stored as 1 or 0.
pub mod Laws
use open_airbus_cockpit.Prelude.{
  ℕ, ◌<◌, ◌==◌, Bool, true, false, not, if◌then◌else◌, ok, throws, on_ok,
}
use open_airbus_cockpit.Exception.{Exception, invalid_type_error, Result}
use open_airbus_cockpit.Buffer.Fixed.{Fixed, create, fixed_ops, read_as, write_as}
use open_airbus_cockpit.Var.Types.{VariableType, boolean, byte, word, dword, float, same_type}

pub record VariableValue : Type 0 where
  pub type : VariableType
  pub buffer : Fixed

-- `make_buffer_of<T>` at a type of `n` bytes: a new buffer of that capacity, written at offset 0.
make_buffer_of : ℕ → ℕ → Result Fixed
make_buffer_of n v = let (r, b) = write_as fixed_ops n 0 v (create n) in on_ok r λ _. ok b

abbrev of_buffer : VariableType → Result Fixed → Result VariableValue
of_buffer t r = on_ok r λ b. ok (record { type = t; buffer = b })

-- Memory of a `bool`.
abbrev pub bool_byte : Bool → ℕ
bool_byte b = if b then 1 else 0

pub from_bool : Bool → Result VariableValue
unfolding make_buffer_of
from_bool v = of_buffer boolean (make_buffer_of 1 (bool_byte v))

pub from_byte : ℕ → Result VariableValue
unfolding make_buffer_of
from_byte v = of_buffer byte (make_buffer_of 1 v)

pub from_word : ℕ → Result VariableValue
unfolding make_buffer_of
from_word v = of_buffer word (make_buffer_of 2 v)

pub from_dword : ℕ → Result VariableValue
unfolding make_buffer_of
from_dword v = of_buffer dword (make_buffer_of 4 v)

pub from_float : ℕ → Result VariableValue
unfolding make_buffer_of
from_float v = of_buffer float (make_buffer_of 4 v)

-- `invalid_type_error(_type, type)`: the declared parameters are the expected and the actual type.
check_type : VariableValue → VariableType → Result (Unit {0})
check_type v t = if same_type v.type t then ok tt else throws (invalid_type_error v.type t)

abbrev read_value : VariableType → ℕ → VariableValue → Result ℕ
read_value t n v = on_ok (check_type v t) λ _. read_as fixed_ops v.buffer n 0

pub as_bool : VariableValue → Result Bool
unfolding check_type
as_bool v = on_ok (read_value boolean 1 v) λ b. ok (not (b == 0))

pub as_byte : VariableValue → Result ℕ
unfolding check_type
as_byte v = read_value byte 1 v

pub as_word : VariableValue → Result ℕ
unfolding check_type
as_word v = read_value word 2 v

pub as_dword : VariableValue → Result ℕ
unfolding check_type
as_dword v = read_value dword 4 v

pub as_float : VariableValue → Result ℕ
unfolding check_type
as_float v = read_value float 4 v

-- `==` on values; that on floats is the machine's.
pub equals : (ℕ → ℕ → Bool) → VariableValue → VariableValue → Result Bool
unfolding as_bool as_byte as_word as_dword as_float
equals float_eq v val = if same_type val.type v.type then compare_as v.type else ok false
  where
    compare_words : (VariableValue → Result ℕ) → Result Bool
    compare_words access = on_ok (access val) λ a. on_ok (access v) λ b. ok (a == b)

    compare_as : VariableType → Result Bool
    compare_as boolean = on_ok (as_bool val) λ a. on_ok (as_bool v) λ b. ok (if a then b else not b)
    compare_as byte = compare_words as_byte
    compare_as word = compare_words as_word
    compare_as dword = compare_words as_dword
    compare_as float = on_ok (as_float val) λ a. on_ok (as_float v) λ b. ok (float_eq a b)
