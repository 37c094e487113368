-- ===== src/Tests/Servers.antt =====
-- A session whose ring holds the request to subscribe to a variable.
use open_airbus_cockpit.Prelude.{
  ℕ, suc, ◌==◌, ltb, if◌then◌else◌, ◌≡◌, refl, inl, arith, List, [], ◌∷◌, none, some, Outcome, ok,
  throws,
}
use open_airbus_cockpit.Exception.{Exception, no_such_variable_error, no_such_subscription_error}
use open_airbus_cockpit.Prelude.Maps.{same_number, same_string}
use open_airbus_cockpit.Var.Types.{VariableId, same_variable}
use open_airbus_cockpit.Buffer.Fixed.{Fixed, fixed_ops}
use open_airbus_cockpit.Buffer.Fixed.Access.{fixed_ops-IsBuffer}
use open_airbus_cockpit.Buffer.Linear.{Linear}
use open_airbus_cockpit.Buffer.Linear.Laws.{IsValid}
use open_airbus_cockpit.Buffer.Linear.Streams.{linear_input, linear_input-IsInput}
use open_airbus_cockpit.Buffer.Ring.{Ring}
use open_airbus_cockpit.Buffer.Ring.Laws.{contents}
use open_airbus_cockpit.Buffer.Ring.Inputs.{Idle}
use open_airbus_cockpit.Stream.Safe.{Ended}
use open_airbus_cockpit.Proto.Messages.{subscription_reply_message, unsubscription_reply_message}
use open_airbus_cockpit.Proto.SubscriptionStatus.{
  subscribed, unsubscribed, no_such_var, no_such_subscription, var_already_subscribed, unknown,
}
use open_airbus_cockpit.Proto.Deserial.{deserialize}
use open_airbus_cockpit.Proto.Binary.{binary_message_deserializer}
use open_airbus_cockpit.Proto.Binary.AnyBytes.{deserialize_ends}
use open_airbus_cockpit.Proto.Binary.Format.{
  subscription_reply, var_update, value, dword_content, encode,
}
use open_airbus_cockpit.Subscription.{MappingException, get_subscription_id, get_var_id}
use open_airbus_cockpit.Core.{FlightVars}
use open_airbus_cockpit.Server.{
  Server, Library, writes, then_read_request, then_nothing, asks_nothing, on_read_request,
  handle_subscription_request, handle_unsubscription_request, send_var_update,
}
use open_airbus_cockpit.Server.Texts.{
  variable_already_subscribed, no_such_variable, no_such_subscription_with_id,
  error_while_unsubscribing,
}
use open_airbus_cockpit.Proto.Marshall.{on_wire}
use open_airbus_cockpit.Server.Receiving.{Handled, on_read_request_any_bytes}
use open_airbus_cockpit.Server.Requests.{
  After, on_read_request_subscribes, handle_subscription_request_refuses,
  handle_unsubscription_request_lem, send_var_update_lem,
}
use open_airbus_cockpit.Tests.Mappings.{
  Relation, functions, functions-IsBimap, Agrees, nothing, nothing-Agrees, added, added-Agrees,
  at_key_same, at_key_other, lower, speed, height, height-speed,
}
use open_airbus_cockpit.Tests.Wire.{plain}

-- The delegate counts the identifiers that it gives out; it knows no variable of the group `z`, and no
-- subscription above 9.
abbrev subscribes_but_z : ℕ → VariableId → ℕ → ℕ → Outcome Exception ℕ × ℕ
subscribes_but_z master v handle n = elim v.group [
  | [] ↦ (ok n, suc n)
  | x ∷ _ ↦ if x == 122 then (throws (no_such_variable_error v), n) else (ok n, suc n)
]

abbrev counting : FlightVars ℕ ℕ
counting = record {
  subscribe = subscribes_but_z;
  unsubscribe =
      λ master id n. if ltb 9 id then (throws (no_such_subscription_error id), n) else (ok tt, n);
  update = λ master id value n. (ok tt, n);
}

-- A request to subscribe to the variable `A`/`b`, and one byte of the next message.
abbrev memory : Fixed
memory = record {
  bytes = 7 ∷ 2 ∷ 0 ∷ 1 ∷ 65 ∷ 0 ∷ 1 ∷ 98 ∷ 13 ∷ 10 ∷ 7 ∷ 0 ∷ 0 ∷ 0 ∷ [];
  capacity = 14;
}

abbrev ring : Ring Fixed
ring = record {
  self = memory;
  read_index = 0;
  write_index = 11;
  bytes_written = 11;
  mark = none;
  dist_from_mark = 0;
}

abbrev arrived : List ℕ
arrived = 7 ∷ 2 ∷ 0 ∷ 1 ∷ 65 ∷ 0 ∷ 1 ∷ 98 ∷ 13 ∷ 10 ∷ 7 ∷ []

ring-Idle : Idle fixed_ops-IsBuffer 14 arrived ring
unfolding contents
ring-Idle = record {
  valid = record {
    self_valid = record { sized = refl; small = omega arith };
    positive = omega arith;
    read_in = omega arith;
    write_in = omega arith;
    start_in = omega arith;
    total = omega arith;
    no_mark = λ _. refl;
    from_start = inl refl;
    from_read = inl refl;
  };
  size = refl;
  fresh = refl;
  holds = refl;
}

abbrev session : Relation → Server ℕ Relation Fixed
session t = record { delegate = 5; subscriptions = t; input_buffer = ring }

abbrev library : Library
library = record { format = λ fmt id. id ∷ fmt; to_lower_copy = lower }

-- The variable `a`/`b` under the identifier 5.
abbrev knows : Relation
knows = added speed 5 nothing

knows-Agrees : Agrees knows
knows-Agrees = added-Agrees speed 5 nothing nothing-Agrees refl refl

on_read_request_subscribes_example :
    (buff : Linear Fixed) × (s : Server ℕ Relation Fixed) × (on_read_request counting 1 0 functions
        fixed_ops plain library
        (ok 11)
        (session nothing)
      ≡ (ok (writes buff then_read_request), s))
    × (on_wire buff ≡ encode plain (subscription_reply subscribed (65 ∷ []) speed.name 5 []))
    × (get_subscription_id functions speed s.subscriptions ≡ ok 5)
    × (get_var_id functions 5 s.subscriptions ≡ ok speed)
    × After counting 1 0 functions-IsBimap fixed_ops-IsBuffer plain library 14 6 (7 ∷ []) s
on_read_request_subscribes_example =
    on_read_request_subscribes counting 1 0 functions-IsBimap fixed_ops-IsBuffer plain library 14 11
      (65 ∷ []) speed.name (7 ∷ []) 5 6 (session nothing) ring-Idle (omega arith) (omega arith)
      (omega arith) (omega arith) (omega arith) nothing-Agrees refl refl refl

on_read_request_any_bytes_example :
    Handled counting 1 0 functions fixed_ops-IsBuffer plain library 14 arrived
      (session nothing)
      (on_read_request counting 1 0 functions fixed_ops plain library (ok 11) (session nothing))
on_read_request_any_bytes_example =
    on_read_request_any_bytes counting 1 0 functions fixed_ops-IsBuffer plain library 14 11 arrived
      (session nothing) ring-Idle (omega arith)

handle_unsubscription_request_lem_example :
    (s : Server ℕ Relation Fixed) × (handle_unsubscription_request counting 1 0 functions fixed_ops
        plain library 5
        (session knows)
      ≡ (ok (unsubscription_reply_message unsubscribed 5 []), s))
    × (get_subscription_id functions speed s.subscriptions
        ≡ throws (MappingException.no_such_variable_error speed))
    × (s.delegate ≡ 5)
    × (handle_unsubscription_request counting 1 0 functions fixed_ops plain library 5
          (session nothing)
        ≡ (
          ok (unsubscription_reply_message unknown 5 (library.format error_while_unsubscribing 5)),
          session nothing,
        ))
    × (handle_unsubscription_request counting 1 0 functions fixed_ops plain library 10
          (session knows)
        ≡ (
          ok (
              unsubscription_reply_message no_such_subscription 10
                (library.format no_such_subscription_with_id 10)),
          session knows,
        ))
handle_unsubscription_request_lem_example =
    handle_unsubscription_request_lem counting 1 0 functions-IsBimap fixed_ops-IsBuffer plain
      library speed 5 10 5 5 (session knows) (session nothing) knows-Agrees
      (at_key_same same_number 5 (some speed) nothing.right) refl refl refl refl

handle_subscription_request_refuses_example :
    (handle_subscription_request counting 1 0 functions fixed_ops plain library
        (90 ∷ [])
        (98 ∷ [])
        (session (added (record { group = 122 ∷ []; name = 98 ∷ [] }) 5 nothing))
      ≡ (
        ok (
            subscription_reply_message var_already_subscribed
              (90 ∷ [])
              (98 ∷ [])
              0
              variable_already_subscribed),
        session (added (record { group = 122 ∷ []; name = 98 ∷ [] }) 5 nothing),
      ))
    × (handle_subscription_request counting 1 0 functions fixed_ops plain library
          (90 ∷ [])
          (98 ∷ [])
          (session nothing)
        ≡ (
          ok (subscription_reply_message no_such_var (90 ∷ []) (98 ∷ []) 0 no_such_variable),
          session nothing,
        ))
handle_subscription_request_refuses_example =
    handle_subscription_request_refuses counting 1 0 functions-IsBimap fixed_ops-IsBuffer plain
      library (90 ∷ []) (98 ∷ []) 5 5
      (session (added (record { group = 122 ∷ []; name = 98 ∷ [] }) 5 nothing)) (session nothing)
      (at_key_same same_variable (record { group = 122 ∷ []; name = 98 ∷ [] }) (some 5)
        nothing.left)
      refl refl

send_var_update_lem_example :
    (buff : Linear Fixed) × (send_var_update counting 1 0 functions fixed_ops plain library speed
        (value (dword_content 70000 (omega arith)))
        (session knows)
      ≡ (ok (writes buff then_nothing), session knows))
    × (on_wire buff ≡ encode plain (var_update 5 (dword_content 70000 (omega arith))))
    × (send_var_update counting 1 0 functions fixed_ops plain library height
          (value (dword_content 70000 (omega arith)))
          (session knows)
        ≡ (ok asks_nothing, session knows))
send_var_update_lem_example =
    send_var_update_lem counting 1 0 functions-IsBimap fixed_ops-IsBuffer plain library speed height
      5 (dword_content 70000 (omega arith)) (session knows)
      (at_key_same same_variable speed (some 5) nothing.left)
      (at_key_other same_variable speed height (some 5) nothing.left height-speed) (omega arith)

-- The bytes of a message that is not one.
abbrev noise : Linear Fixed
noise = record {
  self = record { bytes = 9 ∷ 9 ∷ 9 ∷ []; capacity = 3 };
  read_index = 0;
  write_index = 3;
  mark = none;
}

noise-IsValid : IsValid fixed_ops-IsBuffer noise
noise-IsValid = record {
  self_valid = record { sized = refl; small = omega arith };
  read_in = omega arith;
  write_in = omega arith;
  mark_in = tt;
}

deserialize_ends_example :
    Ended (deserialize (binary_message_deserializer plain (linear_input fixed_ops)) noise).0
    × IsValid fixed_ops-IsBuffer
        (deserialize (binary_message_deserializer plain (linear_input fixed_ops)) noise).1
deserialize_ends_example =
    deserialize_ends plain (linear_input-IsInput fixed_ops-IsBuffer) noise noise-IsValid
