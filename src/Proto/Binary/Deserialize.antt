-- ===== src/Proto/Binary/Deserialize.antt =====
-- `deserialize` over the binary deserializer takes the format of each message.
use open_airbus_cockpit.Prelude.{
  ℕ, ◌<◌, ◌≡◌, refl, arith, true, false, List, [], ◌++◌, append-nil, append_assoc, length, ◌>>=◌,
  return, lift, ok,
}
use open_airbus_cockpit.Prelude.Words.{u16_mod, u32_mod}
use open_airbus_cockpit.Exception.{Result, Method}
use open_airbus_cockpit.Stream.Interface.{InputStream, IsInput}
use open_airbus_cockpit.Stream.Reads.{Gives, >>=-Gives, return-Gives}
use open_airbus_cockpit.Var.Value.{VariableValue}
use open_airbus_cockpit.Var.Types.{float}
use open_airbus_cockpit.Var.Value.Laws.{
  value_of, from_bool_lem, from_byte_lem, from_word_lem, from_dword_lem, from_float_lem,
}
use open_airbus_cockpit.Proto.Messages.{
  Message, begin_session_message, subscription_request_message, subscription_reply_message,
  unsubscription_reply_message, var_update_message,
}
use open_airbus_cockpit.Proto.Deserial.{
  Deserializer, deserialize, deserialize_begin_session_contents, deserialize_end_session_contents,
  deserialize_subscription_request_contents, deserialize_subscription_reply_contents,
  deserialize_unsubscription_request_contents, deserialize_unsubscription_reply_contents,
  deserialize_var_value, deserialize_var_update_contents, deserialize_contents, then_end,
}
use open_airbus_cockpit.Proto.Binary.{
  read_uint8_value, FloatOps, float_parts, float_of_parts, binary_message_deserializer,
}
use open_airbus_cockpit.Proto.Binary.Format.{
  u8, u16, u32, text, float_number, crlf, content, Content, bool_content, byte_content,
  word_content, dword_content, float_content, value, Packet, begin_session, end_session,
  subscription_request, subscription_reply, unsubscription_request, unsubscription_reply,
  var_update, Fits, encode, received,
}
use open_airbus_cockpit.Proto.Binary.Reading.{
  msg_begin-Gives, msg_end-Gives, string_value-Gives, uint8_value-Gives, uint16_value-Gives,
  uint32_value-Gives, float_value-Gives,
}

module _ (f : FloatOps) {S : Type 0} {input : InputStream S} {left : S → List ℕ}
    {Ready : S → Type 0} (laws : IsInput input left Ready) where
  abbrev de : Deserializer S
  de = binary_message_deserializer f input

  -- The last read of a message's contents, before the message is made of them.
  last-Gives :
      {A B : Type 0} {m : Method S A} (g : A → Method S B) {a : A} {b : B} (bs : List ℕ)
      → Gives laws m a bs
      → Gives laws (g a) b []
      → Gives laws (m >>= g) b bs
  last-Gives g bs h k = rw (append-nil bs) at (>>=-Gives laws g bs [] h k)

  value-Gives :
      (id : ℕ) {r : Result VariableValue} {v : VariableValue}
      → r ≡ ok v
      → Gives laws (lift r >>= λ v. return (var_update_message id v)) (var_update_message id v) []
  value-Gives id {v = v} e = rw e (return-Gives laws (var_update_message id v))

  -- What a variable holds when it has been sent and received.
  abbrev arrived : Content → VariableValue
  arrived (float_content v _) =
      value_of float 4 (float_of_parts f (float_parts f v).0 (float_parts f v).1)
  arrived c = value c

  var_value-Gives :
      (id : ℕ) (c : Content)
      → Gives laws
          (read_uint8_value f input >>= deserialize_var_value de id)
          (var_update_message id (arrived c))
          (content f c)
  unfolding deserialize_var_value
  var_value-Gives id (bool_content true) =
      >>=-Gives laws _ (u8 0) (u8 1) (uint8_value-Gives f laws 0)
        (last-Gives _ (u8 1) (uint8_value-Gives f laws 1) (value-Gives id (from_bool_lem true)))
  var_value-Gives id (bool_content false) =
      >>=-Gives laws _ (u8 0) (u8 0) (uint8_value-Gives f laws 0)
        (last-Gives _ (u8 0) (uint8_value-Gives f laws 0) (value-Gives id (from_bool_lem false)))
  var_value-Gives id (byte_content v h) =
      >>=-Gives laws _ (u8 1) (u8 v) (uint8_value-Gives f laws 1)
        (last-Gives _ (u8 v) (uint8_value-Gives f laws v) (value-Gives id (from_byte_lem v)))
  var_value-Gives id (word_content v h) =
      >>=-Gives laws _ (u8 2) (u16 v) (uint8_value-Gives f laws 2)
        (last-Gives _ (u16 v) (uint16_value-Gives f laws v h) (value-Gives id (from_word_lem v)))
  var_value-Gives id (dword_content v h) =
      >>=-Gives laws _ (u8 3) (u32 v) (uint8_value-Gives f laws 3)
        (last-Gives _ (u32 v) (uint32_value-Gives f laws v h) (value-Gives id (from_dword_lem v)))
  var_value-Gives id (float_content v h) =
      >>=-Gives laws _ (u8 4) (float_number f v) (uint8_value-Gives f laws 4) (
        last-Gives _ (float_number f v) (float_value-Gives f laws v)
          (value-Gives id (from_float_lem _)))

  -- A message is complete when its contents are followed by the termination mark.
  contents-Gives :
      {m : Method S Message} {a : Message} (bs : List ℕ)
      → Gives laws m a bs
      → Gives laws (then_end de m) a (bs ++ crlf)
  contents-Gives {a = a} bs h =
      >>=-Gives laws _ bs crlf h (last-Gives _ crlf (msg_end-Gives f laws) (return-Gives laws a))

  var_update-Gives :
      (id : ℕ) (c : Content)
      → id < u32_mod
      → Gives laws
          (deserialize_var_update_contents de)
          (var_update_message id (arrived c))
          (u32 id ++ content f c)
  unfolding deserialize_var_update_contents
  var_update-Gives id c h =
      >>=-Gives laws _ (u32 id) (content f c) (uint32_value-Gives f laws id h)
        (var_value-Gives id c)

  -- The contents of a message with the bytes of its format, however they are grouped.
  message-Gives :
      {m : Method S Message} {a : Message} (bs cs : List ℕ)
      → Gives laws m a bs
      → bs ++ crlf ≡ cs
      → Gives laws (then_end de m) a cs
  message-Gives bs cs h e = rw e at (contents-Gives bs h)

  begin_session-Gives :
      (pname : List ℕ) (ver : ℕ)
      → length pname < u16_mod
      → ver < u16_mod
      → Gives laws
          (deserialize_begin_session_contents de)
          (begin_session_message pname ver)
          (text pname ++ u16 ver)
  unfolding deserialize_begin_session_contents
  begin_session-Gives pname ver h k =
      >>=-Gives laws _ (text pname) (u16 ver) (string_value-Gives f laws pname h)
        (last-Gives _ (u16 ver) (uint16_value-Gives f laws ver k) (return-Gives laws _))

  subscription_request-Gives :
      (grp name : List ℕ)
      → length grp < u16_mod
      → length name < u16_mod
      → Gives laws
          (deserialize_subscription_request_contents de)
          (subscription_request_message grp name)
          (text grp ++ text name)
  unfolding deserialize_subscription_request_contents
  subscription_request-Gives grp name h k =
      >>=-Gives laws _ (text grp) (text name) (string_value-Gives f laws grp h)
        (last-Gives _ (text name) (string_value-Gives f laws name k) (return-Gives laws _))

  subscription_reply-Gives :
      (st : ℕ) (grp name : List ℕ) (id : ℕ) (cause : List ℕ)
      → Fits (subscription_reply st grp name id cause)
      → Gives laws
          (deserialize_subscription_reply_contents de)
          (subscription_reply_message st grp name id cause)
          (u8 st ++ (text grp ++ (text name ++ (u32 id ++ text cause))))
  unfolding deserialize_subscription_reply_contents
  subscription_reply-Gives st grp name id cause h =
      >>=-Gives laws _ (u8 st) _ (uint8_value-Gives f laws st) (
        >>=-Gives laws _ (text grp) _ (string_value-Gives f laws grp h.1) (
          >>=-Gives laws _ (text name) _ (string_value-Gives f laws name h.2) (
            >>=-Gives laws _ (u32 id) _ (uint32_value-Gives f laws id h.3) (
              last-Gives _ (text cause) (string_value-Gives f laws cause h.4)
                (return-Gives laws _)))))

  unsubscription_reply-Gives :
      (st id : ℕ) (cause : List ℕ)
      → Fits (unsubscription_reply st id cause)
      → Gives laws
          (deserialize_unsubscription_reply_contents de)
          (unsubscription_reply_message st id cause)
          (u8 st ++ (u32 id ++ text cause))
  unfolding deserialize_unsubscription_reply_contents
  unsubscription_reply-Gives st id cause h =
      >>=-Gives laws _ (u8 st) _ (uint8_value-Gives f laws st) (
        >>=-Gives laws _ (u32 id) _ (uint32_value-Gives f laws id h.1)
          (last-Gives _ (text cause) (string_value-Gives f laws cause h.2) (return-Gives laws _)))

  pub deserialize-Gives :
      (p : Packet) → Fits p → Gives laws (deserialize de) (received f p) (encode f p)
  unfolding deserialize deserialize_contents deserialize_end_session_contents
      deserialize_unsubscription_request_contents
  deserialize-Gives (begin_session pname ver) h =
      >>=-Gives laws _ (u16 0x700) _ (msg_begin-Gives f laws 0 (omega arith)) (
        message-Gives _ _ (begin_session-Gives pname ver h.0 h.1)
          (append_assoc (text pname) (u16 ver) crlf))
  deserialize-Gives (end_session cause) h =
      >>=-Gives laws _ (u16 0x701) _ (msg_begin-Gives f laws 1 (omega arith)) (
        message-Gives _ _
          (last-Gives _ (text cause) (string_value-Gives f laws cause h.0) (return-Gives laws _))
          refl)
  deserialize-Gives (subscription_request grp name) h =
      >>=-Gives laws _ (u16 0x702) _ (msg_begin-Gives f laws 2 (omega arith)) (
        message-Gives _ _ (subscription_request-Gives grp name h.0 h.1)
          (append_assoc (text grp) (text name) crlf))
  deserialize-Gives (subscription_reply st grp name id cause) h =
      >>=-Gives laws _ (u16 0x703) _ (msg_begin-Gives f laws 3 (omega arith))
        (message-Gives _ _ (subscription_reply-Gives st grp name id cause h) (simp append_assoc))
  deserialize-Gives (unsubscription_request id) h =
      >>=-Gives laws _ (u16 0x704) _ (msg_begin-Gives f laws 4 (omega arith)) (
        message-Gives _ _
          (last-Gives _ (u32 id) (uint32_value-Gives f laws id h.0) (return-Gives laws _)) refl)
  deserialize-Gives (unsubscription_reply st id cause) h =
      >>=-Gives laws _ (u16 0x705) _ (msg_begin-Gives f laws 5 (omega arith))
        (message-Gives _ _ (unsubscription_reply-Gives st id cause h) (simp append_assoc))
  deserialize-Gives (var_update id (float_content v k)) h =
      >>=-Gives laws _ (u16 0x706) _ (msg_begin-Gives f laws 6 (omega arith))
        (message-Gives _ _ (var_update-Gives id (float_content v k) h.0) (simp append_assoc))
  deserialize-Gives (var_update id c) h =
      >>=-Gives laws _ (u16 0x706) _ (msg_begin-Gives f laws 6 (omega arith))
        (message-Gives _ _ (var_update-Gives id c h.0) (simp append_assoc))

  -- `deserialize` on a stream that keeps its promise and begins with the wire format of a message whose members fit
  -- their widths returns that message, a float as what its significand and exponent make, and takes just that format
  -- off the stream, for each of the seven kinds of message and each of the five types of a variable.
  pub deserialize_returns :
      (p : Packet) (rest : List ℕ) (s : S)
      → Fits p
      → Ready s
      → left s ≡ encode f p ++ rest
      → (s' : S) × (deserialize de s ≡ (ok (received f p), s')) × (left s' ≡ rest) × Ready s'
  deserialize_returns p rest s h = (deserialize-Gives p h).run s rest
