-- ===== src/Proto/Binary/Serialize.antt =====
-- `serialize` over the binary serializer emits the format of each message.
use open_airbus_cockpit.Prelude.{
  length, ◌≤◌, ◌++◌, ◌+◌, ℕ, ◌%◌, ◌<◌, ◌≡◌, arith, true, false, List, ◌>>=◌, lift, ok,
}
use open_airbus_cockpit.Prelude.Words.{u8_mod}
use open_airbus_cockpit.Exception.{Result, Method}
use open_airbus_cockpit.Stream.Interface.{OutputStream, IsOutput}
use open_airbus_cockpit.Stream.Writes.{Emits, >>-Emits}
use open_airbus_cockpit.Var.Value.Laws.{
  as_bool_lem, as_byte_lem, as_word_lem, as_dword_lem, as_float_lem,
}
use open_airbus_cockpit.Proto.Serial.{serialize, serialize_var_value}
use open_airbus_cockpit.Proto.Binary.{FloatOps, binary_message_serializer}
use open_airbus_cockpit.Proto.Binary.Format.{
  u8, u16, u32, float_number, content, Content, bool_content, byte_content, word_content,
  dword_content, float_content, value, Packet, begin_session, end_session, subscription_request,
  subscription_reply, unsubscription_request, unsubscription_reply, var_update, message, Fits,
  encode,
}
use open_airbus_cockpit.Proto.Binary.Writing.{
  msg_begin-Emits, msg_end-Emits, string_value-Emits, uint8_value-Emits, uint16_value-Emits,
  uint32_value-Emits, float_value-Emits,
}

module _ (f : FloatOps) {S : Type 0} {output : OutputStream S} {sent : S → List ℕ} {room : S → ℕ}
    {Ready : S → Type 0} (laws : IsOutput output sent room Ready) where
  lift-Emits :
      {A : Type 0} {r : Result A} {a : A} (k : A → Method S (Unit {0})) (bs : List ℕ)
      → r ≡ ok a
      → Emits laws (k a) bs
      → Emits laws (lift r >>= k) bs
  lift-Emits k bs e h = rw e h

  byte_value-Emits :
      (st : ℕ)
      → st < u8_mod
      → Emits laws ((binary_message_serializer f output).write_uint8_value (st % u8_mod)) (u8 st)
  byte_value-Emits st h =
      let kept : st % u8_mod ≡ st = omega arith in rw kept (uint8_value-Emits f laws st h)

  content-Emits :
      (c : Content)
      → Emits laws
          (serialize_var_value (binary_message_serializer f output) (value c).type (value c))
          (content f c)
  unfolding serialize_var_value
  content-Emits (bool_content true) =
      >>-Emits laws (u8 0) (u8 1) (uint8_value-Emits f laws 0 (omega arith))
        (lift-Emits _ (u8 1) (as_bool_lem true) (uint8_value-Emits f laws 1 (omega arith)))
  content-Emits (bool_content false) =
      >>-Emits laws (u8 0) (u8 0) (uint8_value-Emits f laws 0 (omega arith))
        (lift-Emits _ (u8 0) (as_bool_lem false) (uint8_value-Emits f laws 0 (omega arith)))
  content-Emits (byte_content v h) =
      >>-Emits laws (u8 1) (u8 v) (uint8_value-Emits f laws 1 (omega arith))
        (lift-Emits _ (u8 v) (as_byte_lem v h) (uint8_value-Emits f laws v h))
  content-Emits (word_content v h) =
      >>-Emits laws (u8 2) (u16 v) (uint8_value-Emits f laws 2 (omega arith))
        (lift-Emits _ (u16 v) (as_word_lem v h) (uint16_value-Emits f laws v h))
  content-Emits (dword_content v h) =
      >>-Emits laws (u8 3) (u32 v) (uint8_value-Emits f laws 3 (omega arith))
        (lift-Emits _ (u32 v) (as_dword_lem v h) (uint32_value-Emits f laws v h))
  content-Emits (float_content v h) =
      >>-Emits laws (u8 4) (float_number f v) (uint8_value-Emits f laws 4 (omega arith))
        (lift-Emits _ (float_number f v) (as_float_lem v h) (float_value-Emits f laws v))

  pub serialize-Emits :
      (p : Packet)
      → Fits p
      → Emits laws (serialize (binary_message_serializer f output) (message p)) (encode f p)
  unfolding serialize
  serialize-Emits (begin_session pname ver) h =
      >>-Emits laws _ _ (msg_begin-Emits f laws 0 (omega arith)) (
        >>-Emits laws _ _ (string_value-Emits f laws pname h.0)
          (>>-Emits laws _ _ (uint16_value-Emits f laws ver h.1) (msg_end-Emits f laws)))
  serialize-Emits (end_session cause) h =
      >>-Emits laws _ _ (msg_begin-Emits f laws 1 (omega arith))
        (>>-Emits laws _ _ (string_value-Emits f laws cause h.0) (msg_end-Emits f laws))
  serialize-Emits (subscription_request grp name) h =
      >>-Emits laws _ _ (msg_begin-Emits f laws 2 (omega arith)) (
        >>-Emits laws _ _ (string_value-Emits f laws grp h.0)
          (>>-Emits laws _ _ (string_value-Emits f laws name h.1) (msg_end-Emits f laws)))
  serialize-Emits (subscription_reply st grp name id cause) h =
      >>-Emits laws _ _ (msg_begin-Emits f laws 3 (omega arith)) (
        >>-Emits laws _ _ (byte_value-Emits st h.0) (
          >>-Emits laws _ _ (string_value-Emits f laws grp h.1) (
            >>-Emits laws _ _ (string_value-Emits f laws name h.2) (
              >>-Emits laws _ _ (uint32_value-Emits f laws id h.3)
                (>>-Emits laws _ _ (string_value-Emits f laws cause h.4) (msg_end-Emits f laws))))))
  serialize-Emits (unsubscription_request id) h =
      >>-Emits laws _ _ (msg_begin-Emits f laws 4 (omega arith))
        (>>-Emits laws _ _ (uint32_value-Emits f laws id h.0) (msg_end-Emits f laws))
  serialize-Emits (unsubscription_reply st id cause) h =
      >>-Emits laws _ _ (msg_begin-Emits f laws 5 (omega arith)) (
        >>-Emits laws _ _ (byte_value-Emits st h.0) (
          >>-Emits laws _ _ (uint32_value-Emits f laws id h.1)
            (>>-Emits laws _ _ (string_value-Emits f laws cause h.2) (msg_end-Emits f laws))))
  serialize-Emits (var_update id c) h = >>-Emits laws _ _ (msg_begin-Emits f laws 6 (omega arith)) (
      >>-Emits laws _ _ (uint32_value-Emits f laws id h.0)
        (>>-Emits laws _ _ (content-Emits c) (msg_end-Emits f laws)))

  -- `serialize` of a message whose members fit their widths appends the wire format of the message, and nothing else, to
  -- every stream that keeps its promise and has the room, for each of the seven kinds of message and each of the
  -- five types of a variable.
  pub serialize_appends :
      (p : Packet) (s : S)
      → Fits p
      → Ready s
      → length (encode f p) ≤ room s
      → (s' : S) × (serialize (binary_message_serializer f output) (message p) s ≡ (ok tt, s'))
        × (sent s' ≡ sent s ++ encode f p)
        × (room s' + length (encode f p) ≡ room s)
        × Ready s'
  serialize_appends p s h = (serialize-Emits p h).run s
