-- ===== src/Client/ConnectionManager/Arrivals.antt =====
-- What `connection_manager` does when bytes have arrived.
use open_airbus_cockpit.Prelude.{
  ℕ, Bool, true, false, if◌then◌else◌, Option, none, some, ok, throws, undefined, diverges, ◌>>=◌,
  ◌>>◌, return, throw, catching,
}
use open_airbus_cockpit.Exception.{Result}
use open_airbus_cockpit.Buffer.Ring.{reset}
use open_airbus_cockpit.Buffer.Ring.Streams.{ring_input}
use open_airbus_cockpit.Proto.Deserial.{deserialize}
use open_airbus_cockpit.Proto.Binary.{binary_message_deserializer}
use open_airbus_cockpit.Client.Exceptions.{
  ClientException, raised, communication_error_by, is_eof, is_oac,
}
use open_airbus_cockpit.Client.ConnectionState.{disconnect}
use open_airbus_cockpit.Client.ConnectionManager.{
  Receiving, receives, stops, Step, Environment, is_reset, on_input, on_error,
}
use open_airbus_cockpit.Client.ConnectionManager.Replies.{handle_message}

module _ {H U B : Type 0} (env : Environment H U B) where
  open env use {call, report, memory, f}

  -- The `catch` clauses of `on_message_received`.
  unfoldable pub message_error : ClientException → Option (Step H U B Receiving)
  unfolding on_error
  message_error e =
      if is_eof e
      then some (λ c. return receives (record c { input_buffer = reset memory c.input_buffer }))
      else if is_oac e
      then some (on_error env (communication_error_by e) true >> return stops)
      else none

  unfoldable pub receive_message : Step H U B Receiving
  unfolding handle_message message_error
  receive_message c =
      catching
        ((do
          msg ← on_input env (deserialize (binary_message_deserializer f (ring_input memory)))
          handle_message env msg
          return receives)
          c)
        message_error

  -- The first argument says whether the client's thread runs.
  unfoldable pub on_message_received : Bool → Result ℕ → Step H U B Receiving
  unfolding receive_message on_error
  on_message_received false bytes_read c = return stops c
  on_message_received true (ok _) c = receive_message c
  on_message_received true (throws e) c = elim (is_eof (raised e)) [
    | true ↦ return stops (record c { state = disconnect c.state })
    | false ↦ elim (is_reset e) [
      | true ↦ (on_error env (communication_error_by (raised e)) true >> return stops) c
      | false ↦ throw (raised e) c
    ]
  ]
  on_message_received true undefined c = (undefined, c)
  on_message_received true diverges c = (diverges, c)
