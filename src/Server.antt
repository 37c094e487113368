-- ===== src/Server.antt =====
-- `flight_vars_server` and its sessions in flightvars/src/module/server.h and server.cpp, as one session sees
-- them. What the connection does is left out: a method returns what it asks of the connection next, and
-- what the connection brings is an argument of the handlers. The delegate is any implementation of
-- `FlightVars`, with its own state; the log is left out.
pub mod Texts
pub mod Receiving
pub mod Requests
use open_airbus_cockpit.Prelude.{
  ℕ, ◌*◌, List, [], ◌∷◌, Bool, true, false, ◌||◌, if◌then◌else◌, Option, none, some, Outcome, ok,
  throws, undefined, diverges, Action, and_then, ◌>>=◌, ◌>>◌, return, throw, catching, raise, lift,
}
use open_airbus_cockpit.Exception.{
  Exception, eof_error, connection_reset, boost_asio_error, no_such_variable_error,
  no_such_subscription_error, invalid_value_type_error, Result, Method,
}
use open_airbus_cockpit.Var.Types.{VariableId, variable_id}
use open_airbus_cockpit.Var.Value.{VariableValue}
use open_airbus_cockpit.Buffer.Interface.{Buffer}
use open_airbus_cockpit.Buffer.Fixed
use open_airbus_cockpit.Buffer.Fixed.{Fixed, fixed_ops}
use open_airbus_cockpit.Buffer.Linear
use open_airbus_cockpit.Buffer.Linear.{Linear}
use open_airbus_cockpit.Buffer.Linear.Streams.{linear_output}
use open_airbus_cockpit.Buffer.Ring
use open_airbus_cockpit.Buffer.Ring.{Ring, set_mark, unset_mark, reset}
use open_airbus_cockpit.Buffer.Ring.Streams.{ring_input}
use open_airbus_cockpit.Proto.Messages.{
  Message, begin_session_message, end_session_message, subscription_request_message,
  subscription_reply_message, unsubscription_request_message, unsubscription_reply_message,
  var_update_message,
}
use open_airbus_cockpit.Proto.SubscriptionStatus.{
  subscribed, unsubscribed, no_such_var, no_such_subscription, var_already_subscribed, unknown,
}
use open_airbus_cockpit.Proto.Marshall.{marshall}
use open_airbus_cockpit.Proto.Deserial.{deserialize}
use open_airbus_cockpit.Proto.Binary.{
  FloatOps, binary_message_serializer, binary_message_deserializer,
}
use open_airbus_cockpit.Subscription.Relations.{Bimap}
use open_airbus_cockpit.Subscription
use open_airbus_cockpit.Subscription.{
  MappingException, variable_subscription_exists, register_subscription, get_subscription_id,
  unregister_id, for_each_subscription, clear,
}
use open_airbus_cockpit.Core.{FlightVars}
use open_airbus_cockpit.Server.Texts.{
  peer_name, variable_already_subscribed, no_such_variable, no_such_subscription_with_id,
  error_while_unsubscribing,
}

-- The mapper has exceptions of its own.
pub data ServerException : Type 0 where
  raised : Exception → ServerException
  raised_by_mapper : MappingException → ServerException

-- What is to be done after a write.
pub data AfterWrite : Type 0 where
  then_read_request : AfterWrite
  then_nothing : AfterWrite

-- What a method asks of the connection before it returns; `asks_nothing` leaves the session without a call under
-- way that would go on with it.
pub data Next : Type 0 where
  reads_begin_session : Next
  reads_request : Next
  writes : Linear Fixed → AfterWrite → Next
  asks_nothing : Next

-- The state of the delegate, and the `subscriptions` and `input_buffer` of the session.
pub record Server (D S B : Type 0) : Type 0 where
  pub delegate : D
  pub subscriptions : S
  pub input_buffer : Ring B

abbrev pub is_eof : ServerException → Bool
is_eof (raised eof_error) = true
is_eof _ = false

-- The exceptions that derive from `io_exception`.
abbrev pub is_io : Exception → Bool
is_io eof_error = true
is_io connection_reset = true
is_io (boost_asio_error _) = true
is_io _ = false

module _ {B : Type 0} (memory : Buffer B) (f : FloatOps) where
  unfoldable pub unmarshall : Method (Ring B) Message
  unmarshall = do
    λ r. return tt (set_mark memory r)
    result ← deserialize (binary_message_deserializer f (ring_input memory))
    λ r. return tt (unset_mark memory r)
    return result

-- The functions of liboac and of Boost that the sessions call: `format` and `boost::algorithm::to_lower_copy`.
pub record Library : Type 0 where
  pub format : List ℕ → ℕ → List ℕ
  pub to_lower_copy : List ℕ → List ℕ

-- `handle` is the handler that the delegate is given.
module _ {D H S B : Type 0} (ops : FlightVars D H) (delegate : ℕ) (handle : H) (map : Bimap S)
    (memory : Buffer B) (f : FloatOps) (lib : Library) where
  abbrev pub on_delegate : {A : Type 0} → Method D A → Action ServerException (Server D S B) A
  on_delegate m s = let (o, d) = m s.delegate in (raise raised o, record s { delegate = d })

  abbrev pub on_subscriptions :
      {A : Type 0} → Action MappingException S A → Action ServerException (Server D S B) A
  on_subscriptions m s =
      let (o, t) = m s.subscriptions in (raise raised_by_mapper o, record s { subscriptions = t })

  abbrev pub on_input : {A : Type 0} → Method (Ring B) A → Action ServerException (Server D S B) A
  on_input m s = let (o, r) = m s.input_buffer in (raise raised o, record s { input_buffer = r })

  -- A new session.
  pub accept_connection : S → B → D → Next × Server D S B
  accept_connection no_subscriptions buffer d = (
    reads_begin_session,
    record {
      delegate = d;
      subscriptions = no_subscriptions;
      input_buffer = Ring.create memory buffer;
    },
  )

  -- The end of a session.
  unfoldable pub unsubscribe_all : Action ServerException (Server D S B) (Unit {0})
  unsubscribe_all s =
      (on_delegate
            (for_each_subscription map (λ subs. ops.unsubscribe delegate subs) s.subscriptions)
          >> λ t. return tt (record t { subscriptions = clear map t.subscriptions }))
        s

  unfoldable pub write_message : Message → AfterWrite → Action ServerException (Server D S B) Next
  write_message msg after_write = do
    buff ← lift (raise raised (marshall f 1024 msg))
    return (writes buff after_write)

  -- What `after_write` asks for.
  pub on_write_message : Result ℕ → AfterWrite → Next
  on_write_message (ok _) then_read_request = reads_request
  on_write_message _ _ = asks_nothing

  no_such_variable_reply :
      List ℕ → List ℕ → ServerException → Option (Action ServerException (Server D S B) Message)
  no_such_variable_reply grp name (raised (no_such_variable_error _)) =
      some (return (subscription_reply_message no_such_var grp name 0 no_such_variable))
  no_such_variable_reply grp name _ = none

  unfoldable pub handle_subscription_request :
      List ℕ → List ℕ → Action ServerException (Server D S B) Message
  unfolding no_such_variable_reply
  handle_subscription_request var_grp var_name s =
      let var_id = variable_id lib.to_lower_copy var_grp var_name in
      if variable_subscription_exists map var_id s.subscriptions
      then return
          (subscription_reply_message var_already_subscribed var_grp var_name 0
            variable_already_subscribed)
          s
      else catching
          ((do
            subs_id ← on_delegate (ops.subscribe delegate var_id handle)
            on_subscriptions (register_subscription map var_id subs_id)
            return (subscription_reply_message subscribed var_grp var_name subs_id []))
            s)
          (no_such_variable_reply var_grp var_name)

  unsubscription_error_reply :
      ℕ → ServerException → Option (Action ServerException (Server D S B) Message)
  unsubscription_error_reply subs_id (raised (no_such_subscription_error _)) = some (
      return (
        unsubscription_reply_message no_such_subscription subs_id
          (lib.format no_such_subscription_with_id subs_id)))
  unsubscription_error_reply subs_id
        (raised_by_mapper (MappingException.no_such_subscription_error _)) =
      some (
        return (
          unsubscription_reply_message unknown subs_id
            (lib.format error_while_unsubscribing subs_id)))
  unsubscription_error_reply subs_id _ = none

  unfoldable pub handle_unsubscription_request : ℕ → Action ServerException (Server D S B) Message
  unfolding unsubscription_error_reply
  handle_unsubscription_request subs_id s =
      catching
        ((do
          on_delegate (ops.unsubscribe delegate subs_id)
          on_subscriptions (unregister_id map subs_id)
          return (unsubscription_reply_message unsubscribed subs_id []))
          s)
        (unsubscription_error_reply subs_id)

  ignored_update : ServerException → Option (Action ServerException (Server D S B) (Unit {0}))
  ignored_update (raised (no_such_subscription_error _)) = some (return tt)
  ignored_update (raised (invalid_value_type_error _ _)) = some (return tt)
  ignored_update _ = none

  unfoldable pub handle_var_update_request :
      ℕ → VariableValue → Action ServerException (Server D S B) (Unit {0})
  unfolding ignored_update
  handle_var_update_request subs_id var_value s =
      catching (on_delegate (ops.update delegate subs_id var_value) s) ignored_update

  -- The branches of `on_read_request` on the message.
  unfoldable pub process : Message → Action ServerException (Server D S B) Next
  unfolding handle_subscription_request handle_unsubscription_request handle_var_update_request
      write_message
  process (end_session_message _) = return asks_nothing
  process (subscription_request_message var_grp var_name) = do
    rep ← handle_subscription_request var_grp var_name
    write_message rep then_read_request
  process (unsubscription_request_message subs_id) = do
    rep ← handle_unsubscription_request subs_id
    write_message rep then_read_request
  process (var_update_message subs_id var_value) = do
    handle_var_update_request subs_id var_value
    return reads_request
  process _ = return asks_nothing

  -- All the exceptions derive from `oac::exception`.
  unfoldable pub request_error :
      ServerException → Option (Action ServerException (Server D S B) Next)
  request_error e = some (
      if is_eof e
      then (λ s. return reads_request (record s { input_buffer = reset memory s.input_buffer }))
      else return asks_nothing)

  unfoldable pub on_read_request : Result ℕ → Action ServerException (Server D S B) Next
  unfolding process request_error unmarshall
  on_read_request (ok _) s = catching ((on_input (unmarshall memory f) >>= process) s) request_error
  on_read_request (throws eof_error) s = return asks_nothing s
  on_read_request (throws connection_reset) s = return asks_nothing s
  on_read_request (throws e) s = throw (raised e) s
  on_read_request undefined s = (undefined, s)
  on_read_request diverges s = (diverges, s)

  -- The branches of `on_read_begin_session` on the message.
  unfoldable pub begin : Message → Action ServerException (Server D S B) Next
  unfolding write_message
  begin (begin_session_message _ _) =
      write_message (begin_session_message peer_name 0x0100) then_read_request
  begin _ = return asks_nothing

  unfoldable pub begin_error : ServerException → Option (Action ServerException (Server D S B) Next)
  begin_error e = some (
      if is_eof e
      then (λ s.
          return reads_begin_session (record s { input_buffer = reset memory s.input_buffer }))
      else return asks_nothing)

  unfoldable pub on_read_begin_session : Result ℕ → Action ServerException (Server D S B) Next
  unfolding begin begin_error unmarshall
  on_read_begin_session bytes_transferred s =
      catching
        ((do lift (raise raised bytes_transferred); msg ← on_input (unmarshall memory f); begin msg)
          s)
        begin_error

  unsent_update : ServerException → Option (Action ServerException (Server D S B) Next)
  unsent_update (raised_by_mapper (MappingException.no_such_variable_error _)) =
      some (return asks_nothing)
  unsent_update (raised e) = if is_io e then some (return asks_nothing) else none
  unsent_update _ = none

  unfoldable pub send_var_update :
      VariableId → VariableValue → Action ServerException (Server D S B) Next
  unfolding write_message unsent_update
  send_var_update var_id var_value s =
      catching
        ((do
          subs_id ← on_subscriptions (λ t. (get_subscription_id map var_id t, t))
          write_message (var_update_message subs_id var_value) then_nothing)
          s)
        unsent_update

  -- What is posted to the thread of the server while the session lives.
  pub handle_var_update :
      Bool → VariableId → VariableValue → Option (Action ServerException (Server D S B) Next)
  unfolding send_var_update
  handle_var_update true var_id var_value = some (send_var_update var_id var_value)
  handle_var_update false var_id var_value = none
