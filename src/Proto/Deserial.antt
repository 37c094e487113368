-- ===== src/Proto/Deserial.antt =====
-- flightvars/include/flightvars/proto/deserial.h: messages from the calls of a deserializer.
use open_airbus_cockpit.Prelude.{
  ℕ, ◌%◌, List, true, false, ◌==◌, ltb, if◌then◌else◌, ◌>>=◌, ◌>>◌, return, throw, lift,
}
use open_airbus_cockpit.Prelude.Words.{u16_mod}
use open_airbus_cockpit.Exception.{invalid_variable_type, invalid_message_type, Method}
use open_airbus_cockpit.Var.Value.{from_bool, from_byte, from_word, from_dword, from_float}
use open_airbus_cockpit.Proto.Messages.{
  Message, begin_session_message, end_session_message, subscription_request_message,
  subscription_reply_message, unsubscription_request_message, unsubscription_reply_message,
  var_update_message,
}
use open_airbus_cockpit.Proto.MessageType
use open_airbus_cockpit.Proto.MessageType.{MessageType}

-- What the templates ask of their `Deserializer` argument.
pub record Deserializer (S : Type 0) : Type 0 where
  pub read_msg_begin : Method S MessageType
  pub read_msg_end : Method S (Unit {0})
  pub read_string_value : Method S (List ℕ)
  pub read_uint8_value : Method S ℕ
  pub read_uint16_value : Method S ℕ
  pub read_uint32_value : Method S ℕ
  pub read_float_value : Method S ℕ

module _ {S : Type 0} (input : Deserializer S) where
  open input use {
    read_msg_begin, read_msg_end, read_string_value, read_uint8_value, read_uint16_value,
    read_uint32_value, read_float_value,
  }

  unfoldable pub deserialize_begin_session_contents : Method S Message
  deserialize_begin_session_contents = do
    pname ← read_string_value
    proto_ver ← read_uint16_value
    return (begin_session_message pname proto_ver)

  unfoldable pub deserialize_end_session_contents : Method S Message
  deserialize_end_session_contents = do
    cause ← read_string_value
    return (end_session_message cause)

  unfoldable pub deserialize_subscription_request_contents : Method S Message
  deserialize_subscription_request_contents = do
    var_grp ← read_string_value
    var_name ← read_string_value
    return (subscription_request_message var_grp var_name)

  unfoldable pub deserialize_subscription_reply_contents : Method S Message
  deserialize_subscription_reply_contents = do
    st ← read_uint8_value
    grp ← read_string_value
    name ← read_string_value
    subs_id ← read_uint32_value
    cause ← read_string_value
    return (subscription_reply_message st grp name subs_id cause)

  unfoldable pub deserialize_unsubscription_request_contents : Method S Message
  deserialize_unsubscription_request_contents = do
    subs_id ← read_uint32_value
    return (unsubscription_request_message subs_id)

  unfoldable pub deserialize_unsubscription_reply_contents : Method S Message
  deserialize_unsubscription_reply_contents = do
    st ← read_uint8_value
    subs_id ← read_uint32_value
    cause ← read_string_value
    return (unsubscription_reply_message st subs_id cause)

  -- The `switch` of `deserialize_var_update_contents`.
  unfoldable pub deserialize_var_value : ℕ → ℕ → Method S Message
  deserialize_var_value subs_id var_type =
      if var_type == 0
      then (do
        n ← read_uint8_value
        v ← lift (from_bool (if ltb 0 n then true else false))
        return (var_update_message subs_id v))
      else if var_type == 1
      then (do n ← read_uint8_value; v ← lift (from_byte n); return (var_update_message subs_id v))
      else if var_type == 2
      then (do n ← read_uint16_value; v ← lift (from_word n); return (var_update_message subs_id v))
      else if var_type == 3
      then (do
        n ← read_uint32_value
        v ← lift (from_dword n)
        return (var_update_message subs_id v))
      else if var_type == 4
      then (do n ← read_float_value; v ← lift (from_float n); return (var_update_message subs_id v))
      else throw (invalid_variable_type var_type)

  unfoldable pub deserialize_var_update_contents : Method S Message
  unfolding deserialize_var_value
  deserialize_var_update_contents = do
    subs_id ← read_uint32_value
    var_type ← read_uint8_value
    deserialize_var_value subs_id var_type

  -- A case of the `switch` of `deserialize`.
  abbrev pub then_end : Method S Message → Method S Message
  then_end contents = do msg ← contents; read_msg_end; return msg

  -- The `switch` of `deserialize`. `invalid_message_type` has an `std::uint16_t`.
  unfoldable pub deserialize_contents : MessageType → Method S Message
  unfolding deserialize_begin_session_contents deserialize_end_session_contents
      deserialize_subscription_request_contents deserialize_subscription_reply_contents
      deserialize_unsubscription_request_contents deserialize_unsubscription_reply_contents
      deserialize_var_update_contents
  deserialize_contents t =
      if t == MessageType.begin_session
      then then_end deserialize_begin_session_contents
      else if t == MessageType.end_session
      then then_end deserialize_end_session_contents
      else if t == MessageType.subscription_req
      then then_end deserialize_subscription_request_contents
      else if t == MessageType.subscription_rep
      then then_end deserialize_subscription_reply_contents
      else if t == MessageType.unsubscription_req
      then then_end deserialize_unsubscription_request_contents
      else if t == MessageType.unsubscription_rep
      then then_end deserialize_unsubscription_reply_contents
      else if t == MessageType.var_update
      then then_end deserialize_var_update_contents
      else throw (invalid_message_type (t % u16_mod))

  unfoldable pub deserialize : Method S Message
  unfolding deserialize_contents
  deserialize = do msg_begin ← read_msg_begin; deserialize_contents msg_begin
