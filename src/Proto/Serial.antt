-- ===== src/Proto/Serial.antt =====
-- flightvars/include/flightvars/proto/serial.h: messages to the calls of a serializer.
use open_airbus_cockpit.Prelude.{ℕ, ◌%◌, List, if◌then◌else◌, ◌>>=◌, ◌>>◌, lift}
use open_airbus_cockpit.Prelude.Words.{u8_mod}
use open_airbus_cockpit.Exception.{Method}
use open_airbus_cockpit.Var.Types.{VariableType, boolean, byte, word, dword, float}
use open_airbus_cockpit.Var.Value.{VariableValue, as_bool, as_byte, as_word, as_dword, as_float}
use open_airbus_cockpit.Proto.Messages.{
  Message, begin_session_message, end_session_message, subscription_request_message,
  subscription_reply_message, unsubscription_request_message, unsubscription_reply_message,
  var_update_message,
}
use open_airbus_cockpit.Proto.MessageType
use open_airbus_cockpit.Proto.MessageType.{MessageType}
use open_airbus_cockpit.Proto.SubscriptionStatus.{SubscriptionStatus}

-- What the templates ask of their `Serializer` argument.
pub record Serializer (S : Type 0) : Type 0 where
  pub write_msg_begin : MessageType → Method S (Unit {0})
  pub write_msg_end : Method S (Unit {0})
  pub write_string_value : List ℕ → Method S (Unit {0})
  pub write_uint8_value : ℕ → Method S (Unit {0})
  pub write_uint16_value : ℕ → Method S (Unit {0})
  pub write_uint32_value : ℕ → Method S (Unit {0})
  pub write_float_value : ℕ → Method S (Unit {0})

-- `var_type_to_code` of binary.h, `std::uint8_t(var_type)`.
abbrev pub var_type_to_code : VariableType → ℕ
var_type_to_code boolean = 0
var_type_to_code byte = 1
var_type_to_code word = 2
var_type_to_code dword = 3
var_type_to_code float = 4

module _ {S : Type 0} (out : Serializer S) where
  open out use {
    write_msg_begin, write_msg_end, write_string_value, write_uint8_value, write_uint16_value,
    write_uint32_value, write_float_value,
  }

  unfoldable pub serialize_begin_session : List ℕ → ℕ → Method S (Unit {0})
  serialize_begin_session pname proto_ver = do
    write_msg_begin MessageType.begin_session
    write_string_value pname
    write_uint16_value proto_ver
    write_msg_end

  unfoldable pub serialize_end_session : List ℕ → Method S (Unit {0})
  serialize_end_session cause = do
    write_msg_begin MessageType.end_session
    write_string_value cause
    write_msg_end

  unfoldable pub serialize_subscription_request : List ℕ → List ℕ → Method S (Unit {0})
  serialize_subscription_request var_grp var_name = do
    write_msg_begin MessageType.subscription_req
    write_string_value var_grp
    write_string_value var_name
    write_msg_end

  -- The status goes through `int` to the `std::uint8_t` that is written.
  unfoldable pub serialize_subscription_reply :
      SubscriptionStatus → List ℕ → List ℕ → ℕ → List ℕ → Method S (Unit {0})
  serialize_subscription_reply st var_grp var_name subs_id cause = do
    write_msg_begin MessageType.subscription_rep
    write_uint8_value (st % u8_mod)
    write_string_value var_grp
    write_string_value var_name
    write_uint32_value subs_id
    write_string_value cause
    write_msg_end

  unfoldable pub serialize_unsubscription_request : ℕ → Method S (Unit {0})
  serialize_unsubscription_request subs_id = do
    write_msg_begin MessageType.unsubscription_req
    write_uint32_value subs_id
    write_msg_end

  unfoldable pub serialize_unsubscription_reply :
      SubscriptionStatus → ℕ → List ℕ → Method S (Unit {0})
  serialize_unsubscription_reply st subs_id cause = do
    write_msg_begin MessageType.unsubscription_rep
    write_uint8_value (st % u8_mod)
    write_uint32_value subs_id
    write_string_value cause
    write_msg_end

  -- The `switch` of `serialize_var_update`.
  unfoldable pub serialize_var_value : VariableType → VariableValue → Method S (Unit {0})
  serialize_var_value boolean v = do
    write_uint8_value (var_type_to_code boolean)
    b ← lift (as_bool v)
    write_uint8_value (if b then 1 else 0)
  serialize_var_value byte v = do
    write_uint8_value (var_type_to_code byte)
    n ← lift (as_byte v)
    write_uint8_value n
  serialize_var_value word v = do
    write_uint8_value (var_type_to_code word)
    n ← lift (as_word v)
    write_uint16_value n
  serialize_var_value dword v = do
    write_uint8_value (var_type_to_code dword)
    n ← lift (as_dword v)
    write_uint32_value n
  serialize_var_value float v = do
    write_uint8_value (var_type_to_code float)
    n ← lift (as_float v)
    write_float_value n

  unfoldable pub serialize_var_update : ℕ → VariableValue → Method S (Unit {0})
  unfolding serialize_var_value
  serialize_var_update subs_id var_value = do
    write_msg_begin MessageType.var_update
    write_uint32_value subs_id
    serialize_var_value var_value.type var_value
    write_msg_end

  unfoldable pub serialize : Message → Method S (Unit {0})
  unfolding serialize_begin_session serialize_end_session serialize_subscription_request
      serialize_subscription_reply serialize_unsubscription_request serialize_unsubscription_reply
      serialize_var_update
  serialize (begin_session_message pname proto_ver) = serialize_begin_session pname proto_ver
  serialize (end_session_message cause) = serialize_end_session cause
  serialize (subscription_request_message grp name) = serialize_subscription_request grp name
  serialize (subscription_reply_message st grp name subs_id cause) =
      serialize_subscription_reply st grp name subs_id cause
  serialize (unsubscription_request_message subs_id) = serialize_unsubscription_request subs_id
  serialize (unsubscription_reply_message st subs_id cause) =
      serialize_unsubscription_reply st subs_id cause
  serialize (var_update_message subs_id var_value) = serialize_var_update subs_id var_value
