-- ===== src/Client/ConnectionManager/Unasked.antt =====
-- A reply of the server that no request of the client waits for.
use open_airbus_cockpit.Prelude.{ℕ, ◌≡◌, refl, ap, List, [], some, true, false, ok, throws}
use open_airbus_cockpit.Prelude.Maps.{find}
use open_airbus_cockpit.Var.Types.{VariableId, variable_id, same_variable}
use open_airbus_cockpit.Buffer.Ring.{Ring}
use open_airbus_cockpit.Buffer.Ring.Streams.{ring_input}
use open_airbus_cockpit.Proto.MessageType
use open_airbus_cockpit.Proto.Messages.{subscription_reply_message}
use open_airbus_cockpit.Proto.SubscriptionStatus.{SubscriptionStatus}
use open_airbus_cockpit.Proto.Deserial.{deserialize}
use open_airbus_cockpit.Proto.Binary.{binary_message_deserializer}
use open_airbus_cockpit.Client.Exceptions.{
  ClientException, unexpected_message_error, communication_error_by,
}
use open_airbus_cockpit.Client.ConnectionState.{ConnectionState, disconnect_with_error}
use open_airbus_cockpit.Client.Requests.{
  RequestPool, Answers, listed, pop_subscription_requests, propagate_error,
}
use open_airbus_cockpit.Client.ConnectionManager.{
  ConnectionManager, stops, Environment, tell, on_error,
}
use open_airbus_cockpit.Client.ConnectionManager.Replies.{
  answer_subscriptions, on_subscription_reply_received, handle_message,
}
use open_airbus_cockpit.Client.ConnectionManager.Arrivals.{
  message_error, receive_message, on_message_received,
}

disconnected :
    {E : Type 0} (e : E) (s : ConnectionState E)
    → s.connected ≡ true
    → ((disconnect_with_error e s).connected ≡ false) × ((disconnect_with_error e s).error ≡ some e)
unfolding disconnect_with_error
disconnected e s h = (rw (h, disconnect_with_error) refl, rw (h, disconnect_with_error) refl)

-- What the promises and the connection state are told.
abbrev pub unasked : ClientException
unasked = communication_error_by (unexpected_message_error MessageType.subscription_rep)

module _ {H U B : Type 0} (env : Environment H U B) where
  -- The identifier that the client makes of the group and the name of a reply.
  abbrev pub named : List ℕ → List ℕ → VariableId
  named grp name = variable_id env.to_lower_copy grp name

  unasked_reply :
      (st : SubscriptionStatus) (grp name : List ℕ) (id : ℕ) (c : ConnectionManager H U B)
      → listed (find (named grp name) c.request_pool.subs_reqs) ≡ []
      → on_subscription_reply_received env st grp name id c ≡ (
        throws (unexpected_message_error MessageType.subscription_rep),
        record c { request_pool = (pop_subscription_requests (named grp name) c.request_pool).1 },
      )
  unfolding on_subscription_reply_received answer_subscriptions pop_subscription_requests
  unasked_reply st grp name id c nobody =
      ap
        (λ reqs. answer_subscriptions env st (named grp name) id reqs (record c {
          request_pool = (pop_subscription_requests (named grp name) c.request_pool).1;
        }))
        nobody

  -- When the server replies to a subscription that no request waits for, whatever the reply says, and the
  -- requests that wait for others can be told, the client disconnects: `on_message_received` asks for no more
  -- bytes, and the connection state keeps the error.
  pub unasked_reply_disconnects :
      (st : SubscriptionStatus) (grp name : List ℕ) (id n : ℕ) (cause : List ℕ) (r : Ring B)
      (rest : RequestPool H × Answers) (c : ConnectionManager H U B)
      → deserialize (binary_message_deserializer env.f (ring_input env.memory)) c.input_buffer
        ≡ (ok (subscription_reply_message st grp name id cause), r)
      → listed (find (named grp name) c.request_pool.subs_reqs) ≡ []
      → propagate_error unasked
          ((pop_subscription_requests (named grp name) c.request_pool).1, c.answers)
        ≡ (ok tt, rest)
      → c.state.connected ≡ true
      → (c' : ConnectionManager H U B) × (on_message_received env true (ok n) c ≡ (ok stops, c'))
        × (c'.state.connected ≡ false)
        × (c'.state.error ≡ some unasked)
        × (c'.answers ≡ rest.1)
        × (c'.db ≡ c.db)
  unfolding on_message_received receive_message handle_message message_error on_error
  unasked_reply_disconnects st grp name id n cause r rest c got nobody told connected =
      let popped : ConnectionManager H U B = record c {
        input_buffer = r;
        request_pool = (pop_subscription_requests (named grp name) c.request_pool).1;
      } in
      let (off, kept) = disconnected unasked c.state connected in
      (
        record popped {
          user = tell env unasked c.user;
          request_pool = rest.0;
          answers = rest.1;
          state = disconnect_with_error unasked c.state;
        },
        rw (got, unasked_reply st grp name id (record c { input_buffer = r }) nobody)
            (rw told refl),
        off,
        kept,
        refl,
        refl,
      )
