-- ===== src/Client/ConnectionManager/Handshake.antt =====
-- The beginning and the end of the session of `connection_manager`.
use open_airbus_cockpit.Prelude.{
  ℕ, List, [], ◌∷◌, Bool, true, false, ◌==◌, if◌then◌else◌, Option, none, some, ◌>>=◌, ◌>>◌, return,
  throw, catching, raise, lift,
}
use open_airbus_cockpit.Exception.{Result, Method}
use open_airbus_cockpit.Buffer.Ring.{Ring, available_for_read}
use open_airbus_cockpit.Buffer.Ring.Streams.{ring_input}
use open_airbus_cockpit.Proto.Messages.{Message, begin_session_message, end_session_message}
use open_airbus_cockpit.Proto.Marshall.{marshall}
use open_airbus_cockpit.Proto.Deserial.{deserialize}
use open_airbus_cockpit.Proto.Binary.{binary_message_deserializer}
use open_airbus_cockpit.Client.Exceptions.{
  ClientException, raised, communication_error, communication_error_by, sliced, is_io, is_eof,
  is_protocol,
}
use open_airbus_cockpit.Client.ConnectionState.{disconnect}
use open_airbus_cockpit.Client.Texts.{client_disconnected}
use open_airbus_cockpit.Client.ConnectionManager.{Step, Environment, on_input, on_error, send_data}

module _ {H U B : Type 0} (env : Environment H U B) where
  open env use {call, report, memory, f}

  -- `close`, with what its write came to.
  pub close : Result ℕ → Step H U B (Unit {0})
  close write_result c =
      if c.state.connected
      then (do
        output_buff ← lift (raise raised (marshall f 128 (end_session_message client_disconnected)))
        send_data env output_buff
        lift (raise raised write_result)
        λ d. return tt (record d { state = disconnect d.state }))
          c
      else return tt c

  -- The `catch` clauses of `handshake`; where they return, the loop goes on.
  unfoldable pub handshake_error : ClientException → Option (Step H U B Bool)
  handshake_error e =
      if is_eof e
      then some (λ c.
        if available_for_read memory c.input_buffer == 0
        then throw (communication_error_by e) c
        else return false c)
      else if is_io e
      then some (throw (communication_error_by e))
      else if is_protocol e
      then some (throw (communication_error_by e))
      else none

  -- Whether the message is the one that is waited for.
  abbrev pub expect_begin : Message → Step H U B Bool
  expect_begin (begin_session_message _ _) = return true
  expect_begin _ = throw communication_error

  -- The loop of `handshake`, over what each read puts into the buffer and comes to; it returns whether the reply came.
  unfoldable pub handshake_rounds : List (Method (Ring B) ℕ) → Step H U B Bool
  unfolding handshake_error
  handshake_rounds [] = return false
  handshake_rounds (read ∷ reads) = do
    done ← λ c.
        catching
          ((do
            on_input env read
            msg ← on_input env (deserialize (binary_message_deserializer f (ring_input memory)))
            expect_begin msg)
            c)
          handshake_error
    if done then return true else handshake_rounds reads

  pub handshake : List ℕ → Result ℕ → List (Method (Ring B) ℕ) → Step H U B Bool
  unfolding handshake_rounds
  handshake client_name write_result reads = do
    output_buff ← lift (raise raised (marshall f 128 (begin_session_message client_name 0x0100)))
    send_data env output_buff
    lift (raise raised write_result)
    handshake_rounds reads

  -- The constructor: what it throws is told to the error handler and to the promises first, as the `std::exception` that
  -- its `catch` clause declares. The state is the one that its members' constructors make.
  pub connect : List ℕ → Result ℕ → List (Method (Ring B) ℕ) → Step H U B Bool
  unfolding handshake on_error
  connect client_name write_result reads c =
      catching (handshake client_name write_result reads c)
        (λ e. some (on_error env sliced true >> throw e))
