-- ===== src/Client/ConnectionManager.antt =====
-- `connection_manager` of flightvars/include/flightvars/client/connection_manager.h and
-- flightvars/src/lib/client/connection_manager.cpp. What is posted to the IO service is a queue; what is written to the
-- connection is a list of buffers, the newest first; what the connection brings is an argument of the
-- handlers. The error handler and the handlers of updates may change the state `U` of the user; `report` is
-- nothing where no error handler was given. The log and the thread are left out.
pub mod Requested
pub mod Replies
pub mod Arrivals
pub mod Handshake
pub mod Served
pub mod Unasked
pub mod Lost
use open_airbus_cockpit.Prelude.{
  ℕ, List, [], ◌∷◌, ◌++◌, Bool, true, false, ◌==◌, if◌then◌else◌, Option, none, some, Outcome, ok,
  throws, undefined, diverges, Action, and_then, ◌>>=◌, ◌>>◌, return, throw, catching, raise, lift,
}
use open_airbus_cockpit.Exception.{
  Exception, connection_reset, no_such_variable_error, no_such_subscription_error, Result, Method,
}
use open_airbus_cockpit.Var.Types.{VariableId}
use open_airbus_cockpit.Var.Value.{VariableValue}
use open_airbus_cockpit.Buffer.Interface.{Buffer}
use open_airbus_cockpit.Buffer.Fixed.{Fixed}
use open_airbus_cockpit.Buffer.Linear.{Linear}
use open_airbus_cockpit.Buffer.Ring
use open_airbus_cockpit.Buffer.Ring.{Ring, reset, available_for_read}
use open_airbus_cockpit.Buffer.Ring.Streams.{ring_input}
use open_airbus_cockpit.Proto.MessageType
use open_airbus_cockpit.Proto.Messages.{
  Message, begin_session_message, end_session_message, subscription_request_message,
  subscription_reply_message, unsubscription_request_message, unsubscription_reply_message,
  var_update_message, get_message_type,
}
use open_airbus_cockpit.Proto.SubscriptionStatus.{
  SubscriptionStatus, subscribed, unsubscribed, no_such_var, no_such_subscription,
}
use open_airbus_cockpit.Proto.Marshall.{marshall}
use open_airbus_cockpit.Proto.Deserial.{deserialize}
use open_airbus_cockpit.Proto.Binary.{FloatOps, binary_message_deserializer}
use open_airbus_cockpit.Client.Exceptions.{
  ClientException, raised, raised_by_db, unexpected_message_error, communication_error,
  communication_error_by, to_communication_error, is_io, is_eof, is_protocol, is_oac,
  is_no_such_element, is_already_exists, is_no_such_virtual,
}
use open_airbus_cockpit.Client.ConnectionState.{ConnectionState, disconnect, disconnect_with_error}
use open_airbus_cockpit.Client.SubscriptionDb.{
  DbException, DbMethod, SubscriptionDb, entry_defined, create_entry, add_virtual_subscription,
  remove_virtual_subscription, master_of_virtual, invoke_handlers,
}
use open_airbus_cockpit.Client.Requests.{
  Answer, result, finished, failed, Answers, answer, SubscriptionRequest, UnsubscriptionRequest,
  update_master_subs_id, VariableUpdateRequest, RequestPool, insert_subscription,
  pop_subscription_requests, insert_unsubscription, pop_unsubscription_requests, propagate_error,
}
use open_airbus_cockpit.Client.Texts.{client_disconnected}

-- A handler that waits in the queue of the IO service.
pub data Posted (H : Type 0) : Type 0 where
  subscription_requested : SubscriptionRequest H → Posted H
  unsubscription_requested : UnsubscriptionRequest → Posted H
  variable_update_requested : VariableUpdateRequest → Posted H

pub record ConnectionManager (H U B : Type 0) : Type 0 where
  pub state : ConnectionState ClientException
  pub input_buffer : Ring B
  pub db : SubscriptionDb H
  pub request_pool : RequestPool H
  pub posted : List (Posted H)
  pub answers : Answers
  pub written : List (Linear Fixed)
  pub user : U

abbrev pub is_reset : Exception → Bool
is_reset connection_reset = true
is_reset _ = false

-- Whether a handler of a read starts another one.
pub data Receiving : Type 0 where
  receives : Receiving
  stops : Receiving

-- A call of the manager.
abbrev pub Step : Type 0 → Type 0 → Type 0 → Type 0 → Type 0
Step H U B A = Action ClientException (ConnectionManager H U B) A

-- The handlers of the user, which are of type `H`, and what the client is compiled with: the memory of its input
-- buffer and the arithmetic on floats.
pub record Environment (H U B : Type 0) : Type 0 where
  pub call : H → VariableId → VariableValue → Action DbException U (Unit {0})
  pub report : Option (ClientException → U → U)
  pub memory : Buffer B
  pub f : FloatOps
  -- `boost::algorithm::to_lower_copy`
  pub to_lower_copy : List ℕ → List ℕ

module _ {H U B : Type 0} (env : Environment H U B) where
  open env use {call, report, memory, f}

  abbrev pub on_db : {A : Type 0} → DbMethod H A → Step H U B A
  on_db m c = let (o, db) = m c.db in (raise raised_by_db o, record c { db = db })

  abbrev pub on_answers : {A : Type 0} → Action ClientException Answers A → Step H U B A
  on_answers m c = let (o, answers) = m c.answers in (o, record c { answers = answers })

  abbrev pub on_input : {A : Type 0} → Method (Ring B) A → Step H U B A
  on_input m c = let (o, r) = m c.input_buffer in (raise raised o, record c { input_buffer = r })

  abbrev pub set_answer : ℕ → Answer → Step H U B (Unit {0})
  set_answer promise a = on_answers (answer promise a)

  -- The three overloads of `submit`.
  pub submit_subscription :
      SubscriptionRequest H → ConnectionManager H U B → ConnectionManager H U B
  submit_subscription req c = record c { posted = c.posted ++ (subscription_requested req ∷ []) }

  pub submit_unsubscription :
      UnsubscriptionRequest → ConnectionManager H U B → ConnectionManager H U B
  submit_unsubscription req c = record c {
    posted = c.posted ++ (unsubscription_requested req ∷ []);
  }

  pub submit_variable_update :
      VariableUpdateRequest → ConnectionManager H U B → ConnectionManager H U B
  submit_variable_update req c = record c {
    posted = c.posted ++ (variable_update_requested req ∷ []);
  }

  -- The call of the error handler, if there is one.
  abbrev pub tell : ClientException → U → U
  tell e u = elim report [ none ↦ u | some h ↦ h (to_communication_error e) u ]

  unfoldable pub on_error : ClientException → Bool → Step H U B (Unit {0})
  on_error e disconnects c =
      let c' : ConnectionManager H U B = record c { user = tell e c.user } in
      if disconnects
      then (do
        λ d.
            let (o, rest) = propagate_error e (d.request_pool, d.answers) in
            (o, record d { request_pool = rest.0; answers = rest.1 })
        λ d. return tt (record d { state = disconnect_with_error e d.state }))
          c'
      else return tt c'

  -- The write to the connection.
  abbrev pub send_data : Linear Fixed → Step H U B (Unit {0})
  send_data buff c = return tt (record c { written = buff ∷ c.written })

  unfoldable pub send_message : Message → Step H U B (Unit {0})
  send_message msg = do buff ← lift (raise raised (marshall f 1024 msg)); send_data buff

  pub on_data_sent : Result ℕ → Step H U B (Unit {0})
  unfolding on_error
  on_data_sent bytes_written c =
      catching ((lift (raise raised bytes_written) >> return tt) c)
        (λ e. if is_oac e then some (on_error (communication_error_by e) false) else none)
