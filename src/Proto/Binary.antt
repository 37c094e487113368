-- ===== src/Proto/Binary.antt =====
-- flightvars/include/flightvars/proto/binary.h: the binary serializer and deserializer.
pub mod Format
pub mod Writing
pub mod Reading
pub mod Serialize
pub mod Deserialize
pub mod AnyBytes
use open_airbus_cockpit.Prelude.{
  ℕ, ◌+◌, ◌*◌, ◌%◌, List, ◌==◌, if◌then◌else◌, length, ◌>>=◌, ◌>>◌, return, throw,
}
use open_airbus_cockpit.Prelude.Words.{u16_mod, u32_mod, sub32}
use open_airbus_cockpit.Exception.{Exception, invalid_termination_mark, Method}
use open_airbus_cockpit.Endian.{
  native_to_big_u16, native_to_big_u32, big_to_native_u16, big_to_native_u32,
}
use open_airbus_cockpit.Stream.Interface.{InputStream, OutputStream}
use open_airbus_cockpit.Stream.{read_as, read_as_string, write_as, write_as_string}
use open_airbus_cockpit.Proto.MessageType.{MessageType}
use open_airbus_cockpit.Proto.Serial.{Serializer}
use open_airbus_cockpit.Proto.Deserial.{Deserializer}

-- The machine's operations on floats that `write_float_value` and `read_float_value` use. A float
-- and an `int` exponent are bit patterns.
pub record FloatOps : Type 0 where
  pub frexp : ℕ → ℕ × ℕ
  pub ldexp : ℕ → ℕ → ℕ
  pub sub : ℕ → ℕ → ℕ
  pub add : ℕ → ℕ → ℕ
  pub mul : ℕ → ℕ → ℕ
  pub div : ℕ → ℕ → ℕ
  pub to_uint32 : ℕ → ℕ
  pub of_uint32 : ℕ → ℕ
  pub half : ℕ

abbrev pub uint32_max : ℕ
uint32_max = 0xffffffff

-- `std::uint16_t(msg_type) + 0x700`, returned as an `std::uint16_t`.
pub msg_type_to_code : MessageType → ℕ
msg_type_to_code msg_type = (msg_type % u16_mod + 0x700) % u16_mod

pub code_to_msg_type : ℕ → MessageType
code_to_msg_type code = sub32 code 0x700

-- The significand and the exponent that are sent for a float.
pub float_parts : FloatOps → ℕ → ℕ × ℕ
float_parts f value =
    let (sig, exp) = f.frexp value in
    (2 * f.to_uint32 (f.mul (f.sub sig f.half) (f.of_uint32 uint32_max)) % u32_mod, exp % u32_mod)

-- The float that is made of them.
pub float_of_parts : FloatOps → ℕ → ℕ → ℕ
float_of_parts f nsig exp =
    f.ldexp (f.add (f.div (f.mul (f.of_uint32 nsig) f.half) (f.of_uint32 uint32_max)) f.half) exp

module _ (f : FloatOps) {S : Type 0} (output : OutputStream S) where
  pub write_msg_begin : MessageType → Method S (Unit {0})
  unfolding msg_type_to_code
  write_msg_begin msg_type = write_as output 2 (native_to_big_u16 (msg_type_to_code msg_type))

  pub write_msg_end : Method S (Unit {0})
  write_msg_end = write_as output 2 (native_to_big_u16 0x0d0a)

  -- The length goes through an `std::uint16_t`; the string is written whole.
  pub write_string_value : List ℕ → Method S (Unit {0})
  write_string_value value = do
    write_as output 2 (native_to_big_u16 (length value % u16_mod))
    write_as_string output value

  pub write_uint8_value : ℕ → Method S (Unit {0})
  write_uint8_value value = write_as output 1 value

  pub write_uint16_value : ℕ → Method S (Unit {0})
  write_uint16_value value = write_as output 2 (native_to_big_u16 value)

  pub write_uint32_value : ℕ → Method S (Unit {0})
  write_uint32_value value = write_as output 4 (native_to_big_u32 value)

  pub write_float_value : ℕ → Method S (Unit {0})
  unfolding float_parts
  write_float_value value = do
    let parts = float_parts f value
    write_as output 4 (native_to_big_u32 parts.0)
    write_as output 4 (native_to_big_u32 parts.1)

  abbrev pub binary_message_serializer : Serializer S
  binary_message_serializer = record {
    write_msg_begin = write_msg_begin;
    write_msg_end = write_msg_end;
    write_string_value = write_string_value;
    write_uint8_value = write_uint8_value;
    write_uint16_value = write_uint16_value;
    write_uint32_value = write_uint32_value;
    write_float_value = write_float_value;
  }

module _ (f : FloatOps) {S : Type 0} (input : InputStream S) where
  pub read_msg_begin : Method S MessageType
  unfolding code_to_msg_type
  read_msg_begin = do code ← read_as input 2; return (code_to_msg_type (big_to_native_u16 code))

  pub read_msg_end : Method S (Unit {0})
  read_msg_end = do
    mark ← read_as input 2
    let eol = native_to_big_u16 mark
    if eol == 0x0d0a then return tt else throw (invalid_termination_mark eol)

  pub read_string_value : Method S (List ℕ)
  read_string_value = do str_len ← read_as input 2; read_as_string input (big_to_native_u16 str_len)

  pub read_uint8_value : Method S ℕ
  read_uint8_value = read_as input 1

  pub read_uint16_value : Method S ℕ
  read_uint16_value = do value ← read_as input 2; return (big_to_native_u16 value)

  pub read_uint32_value : Method S ℕ
  read_uint32_value = do value ← read_as input 4; return (big_to_native_u32 value)

  pub read_float_value : Method S ℕ
  unfolding float_of_parts
  read_float_value = do
    nsig ← read_as input 4
    exp ← read_as input 4
    return (float_of_parts f (big_to_native_u32 nsig) (big_to_native_u32 exp))

  abbrev pub binary_message_deserializer : Deserializer S
  binary_message_deserializer = record {
    read_msg_begin = read_msg_begin;
    read_msg_end = read_msg_end;
    read_string_value = read_string_value;
    read_uint8_value = read_uint8_value;
    read_uint16_value = read_uint16_value;
    read_uint32_value = read_uint32_value;
    read_float_value = read_float_value;
  }
