-- ===== src/Proto/Binary/AnyBytes.antt =====
-- `deserialize` on whatever bytes a stream has.
use open_airbus_cockpit.Prelude.{
  ◌<◌, throws, and_then-throws, length, [], ℕ, ◌%◌, ◌≡◌, arith, List, true, false, if◌then◌else◌,
  ltb, ◌==◌, ok, ◌>>=◌, return, throw, lift,
}
use open_airbus_cockpit.Prelude.Words.{u16_mod}
use open_airbus_cockpit.Exception.{
  eof_error, invalid_termination_mark, invalid_variable_type, invalid_message_type, Result, Method,
}
use open_airbus_cockpit.Endian.{native_to_big_u16, big_to_native_u16, big_to_native_u32}
use open_airbus_cockpit.Endian.Swap.{big_to_native_u16_bound}
use open_airbus_cockpit.Stream.Interface.{InputStream, IsInput}
use open_airbus_cockpit.Stream.{read_as}
use open_airbus_cockpit.Stream.Reads.{read_as_short}
use open_airbus_cockpit.Stream.Safe.{
  Ended, Safe, return-Safe, throw-Safe, >>=-Safe, if-Safe, read_as-Safe, read_as_string-Safe,
}
use open_airbus_cockpit.Var.Value.{
  VariableValue, from_bool, from_byte, from_word, from_dword, from_float,
}
use open_airbus_cockpit.Var.Value.Laws.{
  from_bool_lem, from_byte_lem, from_word_lem, from_dword_lem, from_float_lem,
}
use open_airbus_cockpit.Proto.Messages.{
  Message, begin_session_message, end_session_message, subscription_request_message,
  subscription_reply_message, unsubscription_request_message, unsubscription_reply_message,
  var_update_message,
}
use open_airbus_cockpit.Proto.MessageType
use open_airbus_cockpit.Proto.MessageType.{MessageType}
use open_airbus_cockpit.Proto.Deserial.{
  Deserializer, deserialize_begin_session_contents, deserialize_end_session_contents,
  deserialize_subscription_request_contents, deserialize_subscription_reply_contents,
  deserialize_unsubscription_request_contents, deserialize_unsubscription_reply_contents,
  deserialize_var_value, deserialize_var_update_contents, then_end, deserialize_contents,
  deserialize,
}
use open_airbus_cockpit.Proto.Binary.{
  FloatOps, code_to_msg_type, float_of_parts, read_msg_begin, read_msg_end, read_string_value,
  read_uint8_value, read_uint16_value, read_uint32_value, read_float_value,
  binary_message_deserializer,
}

module _ {S : Type 0} {Ready : S → Type 0} where
  lift-Safe : {A : Type 0} (o : Result A) (a : A) → o ≡ ok a → Safe Ready (lift o)
  lift-Safe o a e = rw e (return-Safe Ready a)

  map-Safe :
      {A B : Type 0} (m : Method S A) (g : A → B)
      → Safe Ready m
      → Safe Ready (m >>= λ x. return (g x))
  map-Safe m g h = >>=-Safe Ready m (λ x. return (g x)) h (λ x. return-Safe Ready (g x))

  -- The value of an update from what was read.
  update-Safe :
      {A : Type 0} (id : ℕ) (m : Method S A) (from : A → Result VariableValue)
      (g : A → VariableValue)
      → Safe Ready m
      → ((n : A) → from n ≡ ok (g n))
      → Safe Ready (m >>= λ n. lift (from n) >>= λ v. return (var_update_message id v))
  update-Safe id m from g h e =
      >>=-Safe Ready m (λ n. lift (from n) >>= λ v. return (var_update_message id v)) h
        λ n.
          map-Safe (lift (from n)) (λ v. var_update_message id v) (lift-Safe (from n) (g n) (e n))

module _ (f : FloatOps) {S : Type 0} {input : InputStream S} {left : S → List ℕ}
    {Ready : S → Type 0} (laws : IsInput input left Ready) where
  abbrev de : Deserializer S
  de = binary_message_deserializer f input

  msg_begin-Safe : Safe Ready (read_msg_begin f input)
  unfolding read_msg_begin
  msg_begin-Safe =
      map-Safe (read_as input 2) (λ c. code_to_msg_type (big_to_native_u16 c))
        (read_as-Safe laws 2 (omega arith))

  msg_end-Safe : Safe Ready (read_msg_end f input)
  unfolding read_msg_end
  msg_end-Safe = >>=-Safe Ready (read_as input 2) _ (read_as-Safe laws 2 (omega arith)) λ mark.
      if-Safe Ready (native_to_big_u16 mark == 0x0d0a) (return tt)
        (throw (invalid_termination_mark (native_to_big_u16 mark))) (return-Safe Ready tt)
        (throw-Safe Ready (invalid_termination_mark (native_to_big_u16 mark)))

  string-Safe : Safe Ready (read_string_value f input)
  unfolding read_string_value
  string-Safe =
      >>=-Safe Ready (read_as input 2) _ (read_as-Safe laws 2 (omega arith)) λ n.
        read_as_string-Safe laws (big_to_native_u16 n) (omega (arith, big_to_native_u16_bound n))

  uint8-Safe : Safe Ready (read_uint8_value f input)
  unfolding read_uint8_value
  uint8-Safe = read_as-Safe laws 1 (omega arith)

  uint16-Safe : Safe Ready (read_uint16_value f input)
  unfolding read_uint16_value
  uint16-Safe = map-Safe (read_as input 2) big_to_native_u16 (read_as-Safe laws 2 (omega arith))

  uint32-Safe : Safe Ready (read_uint32_value f input)
  unfolding read_uint32_value
  uint32-Safe = map-Safe (read_as input 4) big_to_native_u32 (read_as-Safe laws 4 (omega arith))

  float-Safe : Safe Ready (read_float_value f input)
  unfolding read_float_value
  float-Safe = >>=-Safe Ready (read_as input 4) _ (read_as-Safe laws 4 (omega arith)) λ nsig.
      map-Safe (read_as input 4)
        (λ e. float_of_parts f (big_to_native_u32 nsig) (big_to_native_u32 e))
        (read_as-Safe laws 4 (omega arith))

  var_value-Safe : (id t : ℕ) → Safe Ready (deserialize_var_value de id t)
  unfolding deserialize_var_value
  var_value-Safe id t =
      if-Safe Ready (t == 0) _ _
        (update-Safe id (read_uint8_value f input)
          (λ n. from_bool (if ltb 0 n then true else false)) _ uint8-Safe
          (λ n. from_bool_lem (if ltb 0 n then true else false)))
        (if-Safe Ready (t == 1) _ _
          (update-Safe id (read_uint8_value f input) from_byte _ uint8-Safe from_byte_lem)
          (if-Safe Ready (t == 2) _ _
            (update-Safe id (read_uint16_value f input) from_word _ uint16-Safe from_word_lem)
            (if-Safe Ready (t == 3) _ _
              (update-Safe id (read_uint32_value f input) from_dword _ uint32-Safe from_dword_lem)
              (if-Safe Ready (t == 4) _ _
                (update-Safe id (read_float_value f input) from_float _ float-Safe from_float_lem)
                (throw-Safe Ready (invalid_variable_type t))))))

  begin_session-Safe : Safe Ready (deserialize_begin_session_contents de)
  unfolding deserialize_begin_session_contents
  begin_session-Safe =
      >>=-Safe Ready (read_string_value f input) _ string-Safe
        λ pname. map-Safe (read_uint16_value f input) (begin_session_message pname) uint16-Safe

  end_session-Safe : Safe Ready (deserialize_end_session_contents de)
  unfolding deserialize_end_session_contents
  end_session-Safe = map-Safe (read_string_value f input) end_session_message string-Safe

  subscription_request-Safe : Safe Ready (deserialize_subscription_request_contents de)
  unfolding deserialize_subscription_request_contents
  subscription_request-Safe =
      >>=-Safe Ready (read_string_value f input) _ string-Safe
        λ grp. map-Safe (read_string_value f input) (subscription_request_message grp) string-Safe

  subscription_reply-Safe : Safe Ready (deserialize_subscription_reply_contents de)
  unfolding deserialize_subscription_reply_contents
  subscription_reply-Safe = >>=-Safe Ready (read_uint8_value f input) _ uint8-Safe λ st.
      >>=-Safe Ready (read_string_value f input) _ string-Safe λ grp.
        >>=-Safe Ready (read_string_value f input) _ string-Safe λ name.
          >>=-Safe Ready (read_uint32_value f input) _ uint32-Safe λ id.
            map-Safe (read_string_value f input) (subscription_reply_message st grp name id)
              string-Safe

  unsubscription_request-Safe : Safe Ready (deserialize_unsubscription_request_contents de)
  unfolding deserialize_unsubscription_request_contents
  unsubscription_request-Safe =
      map-Safe (read_uint32_value f input) unsubscription_request_message uint32-Safe

  unsubscription_reply-Safe : Safe Ready (deserialize_unsubscription_reply_contents de)
  unfolding deserialize_unsubscription_reply_contents
  unsubscription_reply-Safe = >>=-Safe Ready (read_uint8_value f input) _ uint8-Safe λ st.
      >>=-Safe Ready (read_uint32_value f input) _ uint32-Safe
        λ id. map-Safe (read_string_value f input) (unsubscription_reply_message st id) string-Safe

  var_update-Safe : Safe Ready (deserialize_var_update_contents de)
  unfolding deserialize_var_update_contents
  var_update-Safe =
      >>=-Safe Ready (read_uint32_value f input) _ uint32-Safe
        λ id. >>=-Safe Ready (read_uint8_value f input) _ uint8-Safe λ t. var_value-Safe id t

  then_end-Safe : (m : Method S Message) → Safe Ready m → Safe Ready (then_end de m)
  then_end-Safe m h = >>=-Safe Ready m _ h λ msg.
      >>=-Safe Ready (read_msg_end f input) (λ _. return msg) msg_end-Safe
        (λ _. return-Safe Ready msg)

  contents-Safe : (t : MessageType) → Safe Ready (deserialize_contents de t)
  unfolding deserialize_contents
  contents-Safe t =
      if-Safe Ready (t == MessageType.begin_session) _ _ (then_end-Safe _ begin_session-Safe) (
        if-Safe Ready (t == MessageType.end_session) _ _ (then_end-Safe _ end_session-Safe) (
          if-Safe Ready (t == MessageType.subscription_req) _ _
            (then_end-Safe _ subscription_request-Safe)
            (if-Safe Ready (t == MessageType.subscription_rep) _ _
              (then_end-Safe _ subscription_reply-Safe)
              (if-Safe Ready (t == MessageType.unsubscription_req) _ _
                (then_end-Safe _ unsubscription_request-Safe)
                (if-Safe Ready (t == MessageType.unsubscription_rep) _ _
                  (then_end-Safe _ unsubscription_reply-Safe)
                  (if-Safe Ready (t == MessageType.var_update) _ _ (then_end-Safe _ var_update-Safe)
                    (throw-Safe Ready (invalid_message_type (t % u16_mod)))))))))

  pub deserialize-Safe : Safe Ready (deserialize de)
  unfolding deserialize
  deserialize-Safe = >>=-Safe Ready (read_msg_begin f input) _ msg_begin-Safe contents-Safe

  -- On a stream that keeps its promise, whatever bytes it has, `deserialize` comes to an end, with a message or an
  -- exception, and leaves the stream ready for more.
  pub deserialize_ends : (s : S) → Ready s → Ended (deserialize de s).0 × Ready (deserialize de s).1
  deserialize_ends s ready = deserialize-Safe.run s ready

  -- On a stream that has less than the two bytes of a message type, `deserialize` throws `eof_error`, and what there
  -- was has gone.
  pub deserialize_short :
      (s : S)
      → Ready s
      → length (left s) < 2
      → (s' : S) × (deserialize de s ≡ (throws eof_error, s')) × (left s' ≡ []) × Ready s'
  unfolding deserialize read_msg_begin
  deserialize_short s ready short =
      let (s', run, empty, ready') = read_as_short laws 2 s ready (omega arith) short in
      (s', and_then-throws _ (and_then-throws _ run), empty, ready')
