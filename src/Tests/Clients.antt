-- ===== src/Tests/Clients.antt =====
-- A client that subscribes to a variable, and what it does on a reply that it has not asked for.
use open_airbus_cockpit.Prelude.{
  ℕ, ◌≡◌, refl, inl, arith, List, [], ◌∷◌, none, some, ok, throws, true, false,
}
use open_airbus_cockpit.Prelude.Maps.{find, erase, assign, same_number, same_string}
use open_airbus_cockpit.Var.Types.{same_variable}
use open_airbus_cockpit.Buffer.Fixed.{Fixed, fixed_ops}
use open_airbus_cockpit.Buffer.Fixed.Access.{fixed_ops-IsBuffer}
use open_airbus_cockpit.Buffer.Linear.{Linear}
use open_airbus_cockpit.Buffer.Ring.{Ring}
use open_airbus_cockpit.Buffer.Ring.Laws.{contents}
use open_airbus_cockpit.Buffer.Ring.Inputs.{Unmarked, fresh_input-IsInput}
use open_airbus_cockpit.Buffer.Ring.Streams.{ring_input}
use open_airbus_cockpit.Proto.Messages.{subscription_reply_message}
use open_airbus_cockpit.Proto.SubscriptionStatus.{subscribed}
use open_airbus_cockpit.Proto.Marshall.{on_wire}
use open_airbus_cockpit.Proto.Deserial.{deserialize}
use open_airbus_cockpit.Proto.Binary.{binary_message_deserializer}
use open_airbus_cockpit.Proto.Binary.Format.{subscription_request, subscription_reply, encode}
use open_airbus_cockpit.Proto.Binary.Deserialize.{deserialize_returns}
use open_airbus_cockpit.Subscription.{make_subscription_id}
use open_airbus_cockpit.Client.Exceptions.{request_timeout_error}
use open_airbus_cockpit.Client.ConnectionState.{create}
use open_airbus_cockpit.Client.SubscriptionDb.{master_of_variable, handlers_of}
use open_airbus_cockpit.Client.SubscriptionDb.Sound.{Sound, empty-Sound}
use open_airbus_cockpit.Client.Requests.{
  result, answer, get_result, SubscriptionRequest, listed, pop_subscription_requests, fail_each,
  fail_all, propagate_error,
}
use open_airbus_cockpit.Client.ConnectionManager.{ConnectionManager, receives, stops, Environment}
use open_airbus_cockpit.Client.ConnectionManager.Requested.{on_subscription_requested}
use open_airbus_cockpit.Client.ConnectionManager.Replies.{handle_message}
use open_airbus_cockpit.Client.ConnectionManager.Arrivals.{on_message_received}
use open_airbus_cockpit.Client.ConnectionManager.Served.{subscription_served}
use open_airbus_cockpit.Client.ConnectionManager.Unasked.{unasked, unasked_reply_disconnects}
use open_airbus_cockpit.Client.ConnectionManager.Lost.{first_byte_lost}
use open_airbus_cockpit.Tests.Databases.{no_entries, logs}
use open_airbus_cockpit.Tests.Mappings.{lower, speed}
use open_airbus_cockpit.Tests.Wire.{plain}

abbrev env : Environment ℕ (List ℕ) Fixed
env = record {
  call = logs;
  report = some (λ e u. 9 ∷ u);
  memory = fixed_ops;
  f = plain;
  to_lower_copy = lower;
}

abbrev ring : List ℕ → ℕ → ℕ → Ring Fixed
ring bytes capacity n = record {
  self = record { bytes = bytes; capacity = capacity };
  read_index = 0;
  write_index = n;
  bytes_written = n;
  mark = none;
  dist_from_mark = 0;
}

-- The reply that the variable `A`/`b` is subscribed under the identifier 7.
abbrev reply : Ring Fixed
reply = ring (7 ∷ 3 ∷ 0 ∷ 0 ∷ 1 ∷ 65 ∷ 0 ∷ 1 ∷ 98 ∷ 0 ∷ 0 ∷ 0 ∷ 7 ∷ 0 ∷ 0 ∷ 13 ∷ 10 ∷ 0 ∷ []) 18 17

reply-Unmarked : Unmarked fixed_ops-IsBuffer reply
reply-Unmarked = record {
  valid = record {
    self_valid = record { sized = refl; small = omega arith };
    positive = omega arith;
    read_in = omega arith;
    write_in = omega arith;
    start_in = omega arith;
    total = omega arith;
    no_mark = λ _. refl;
    from_start = inl refl;
    from_read = inl refl;
  };
  unfull = omega arith;
  mark = refl;
}

-- The first byte of a message.
abbrev first_byte : Ring Fixed
first_byte = ring (7 ∷ 0 ∷ []) 2 1

first_byte-Unmarked : Unmarked fixed_ops-IsBuffer first_byte
first_byte-Unmarked = record {
  valid = record {
    self_valid = record { sized = refl; small = omega arith };
    positive = omega arith;
    read_in = omega arith;
    write_in = omega arith;
    start_in = omega arith;
    total = omega arith;
    no_mark = λ _. refl;
    from_start = inl refl;
    from_read = inl refl;
  };
  unfull = omega arith;
  mark = refl;
}

abbrev client : Ring Fixed → ConnectionManager ℕ (List ℕ) Fixed
client r = record {
  state = create true;
  input_buffer = r;
  db = no_entries;
  request_pool = record { subs_reqs = []; unsubs_reqs = [] };
  posted = [];
  answers = [];
  written = [];
  user = [];
}

abbrev request : SubscriptionRequest ℕ
request = record { promise = 1; var_id = speed; handler = 3 }

subscription_served_example :
    (buff : Linear Fixed) × (c1 c2 : ConnectionManager ℕ (List ℕ) Fixed)
    × (on_subscription_requested env request (client first_byte) ≡ (ok tt, c1))
    × (c1.written ≡ buff ∷ [])
    × (on_wire buff ≡ encode plain (subscription_request speed.group speed.name))
    × (get_result 1 c1.answers ≡ throws request_timeout_error)
    × (handle_message env (subscription_reply_message subscribed (65 ∷ []) speed.name 7 []) c1
        ≡ (ok tt, c2))
    × (get_result 1 c2.answers ≡ ok (result 10))
    × (master_of_variable speed c2.db ≡ (ok 7, c2.db))
    × (handlers_of 7 c2.db ≡ (ok (speed, record { id = 10; handler = 3 } ∷ []), c2.db))
    × Sound c2.db
unfolding find make_subscription_id listed
subscription_served_example =
    subscription_served env request (65 ∷ []) speed.name 7 [] (client first_byte) refl
      (empty-Sound 1 10) refl refl refl refl refl (omega arith) (omega arith) (omega arith)

reply_read :
    (r : Ring Fixed) × (deserialize (binary_message_deserializer plain (ring_input fixed_ops)) reply
      ≡ (ok (subscription_reply_message subscribed (65 ∷ []) speed.name 7 []), r))
    × (contents fixed_ops-IsBuffer r ≡ [])
    × Unmarked fixed_ops-IsBuffer r
unfolding contents
reply_read =
    deserialize_returns plain (fresh_input-IsInput fixed_ops-IsBuffer)
      (subscription_reply subscribed (65 ∷ []) speed.name 7 []) [] reply
      (omega arith, omega arith, omega arith, omega arith, omega arith) reply-Unmarked refl

unasked_reply_disconnects_example :
    (c : ConnectionManager ℕ (List ℕ) Fixed) × (on_message_received env true (ok 17) (client reply)
      ≡ (ok stops, c))
    × (c.state.connected ≡ false)
    × (c.state.error ≡ some unasked)
    × (c.answers ≡ [])
    × (c.db ≡ no_entries)
unfolding find listed pop_subscription_requests assign erase create propagate_error fail_all
    fail_each answer
unasked_reply_disconnects_example =
    unasked_reply_disconnects env subscribed (65 ∷ []) speed.name 7 17 [] reply_read.0
      (record { subs_reqs = []; unsubs_reqs = [] }, []) (client reply) reply_read.1 refl refl refl

first_byte_lost_example :
    (c : ConnectionManager ℕ (List ℕ) Fixed) × (on_message_received env true
        (ok 1)
        (client first_byte)
      ≡ (ok receives, c))
    × (contents fixed_ops-IsBuffer c.input_buffer ≡ [])
    × Unmarked fixed_ops-IsBuffer c.input_buffer
unfolding contents
first_byte_lost_example =
    first_byte_lost env fixed_ops-IsBuffer 1 (client first_byte) first_byte-Unmarked (omega arith)
