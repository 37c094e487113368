-- ===== src/Tests/Wire.antt =====
-- Messages through a linear buffer.
use open_airbus_cockpit.Prelude.{
  ℕ, ◌+◌, ◌%◌, ◌≡◌, refl, arith, List, [], ◌∷◌, ◌++◌, length, map, none, ok, replicate,
}
use open_airbus_cockpit.Prelude.Words.{u32_mod}
use open_airbus_cockpit.Buffer.Fixed.{Fixed, fixed_ops}
use open_airbus_cockpit.Buffer.Fixed.Access.{fixed_ops-IsBuffer}
use open_airbus_cockpit.Buffer.Linear.{Linear}
use open_airbus_cockpit.Buffer.Linear.Laws.{IsValid, pending, written}
use open_airbus_cockpit.Buffer.Linear.Streams.{
  linear_input, linear_output, room, linear_input-IsInput, linear_output-IsOutput,
}
use open_airbus_cockpit.Proto.Serial.{serialize}
use open_airbus_cockpit.Proto.Deserial.{deserialize}
use open_airbus_cockpit.Proto.Binary.{
  FloatOps, binary_message_serializer, binary_message_deserializer,
}
use open_airbus_cockpit.Proto.Binary.Format.{
  Packet, subscription_request, var_update, end_session, dword_content, float_content, message,
  encode, received,
}
use open_airbus_cockpit.Proto.Binary.Serialize.{serialize_appends}
use open_airbus_cockpit.Proto.Binary.Deserialize.{deserialize_returns}
use open_airbus_cockpit.Proto.RoundTrip.{send_all, receive_all, receive-send}

-- An arithmetic in place of that of the hardware.
abbrev pub plain : FloatOps
plain = record {
  frexp = λ v. (v, 0);
  ldexp = λ s e. s;
  sub = λ a b. a;
  add = λ a b. a;
  mul = λ a b. a;
  div = λ a b. a;
  to_uint32 = λ a. a % u32_mod;
  of_uint32 = λ a. a;
  half = 0;
}

abbrev buffer_with : List ℕ → ℕ → Linear Fixed
buffer_with bytes written = record {
  self = record { bytes = bytes; capacity = length bytes };
  read_index = 0;
  write_index = written;
  mark = none;
}

abbrev blank : Linear Fixed
blank = buffer_with (replicate 64 0) 0

blank-IsValid : IsValid fixed_ops-IsBuffer blank
blank-IsValid = record {
  self_valid = record { sized = refl; small = omega arith };
  read_in = omega arith;
  write_in = omega arith;
  mark_in = tt;
}

pending-blank : pending fixed_ops-IsBuffer blank ≡ []
unfolding pending written
pending-blank = refl

abbrev request : Packet
request = subscription_request (97 ∷ 98 ∷ []) (99 ∷ [])

abbrev change : Packet
change = var_update 5 (dword_content 70000 (omega arith))

abbrev packets : List Packet
packets =
    request ∷ change ∷ var_update 6 (float_content 0x3f800000 (omega arith)) ∷ end_session [] ∷ []

receive-send_example :
    (l l' : Linear Fixed) × (send_all plain (linear_output fixed_ops) (map message packets) blank
      ≡ (ok tt, l))
    × (receive_all plain (linear_input fixed_ops) 4 l ≡ (ok (map (received plain) packets), l'))
    × (pending fixed_ops-IsBuffer l' ≡ [])
receive-send_example =
    receive-send plain (linear_input-IsInput fixed_ops-IsBuffer)
      (linear_output-IsOutput fixed_ops-IsBuffer) packets blank
      (
        (omega arith, omega arith),
        ((omega arith, tt), ((omega arith, tt), ((omega arith, tt), tt))),
      )
      blank-IsValid pending-blank (omega arith)

serialize_appends_example :
    (l : Linear Fixed) × (serialize
        (binary_message_serializer plain (linear_output fixed_ops))
        (message request)
        blank
      ≡ (ok tt, l))
    × (pending fixed_ops-IsBuffer l
        ≡ pending fixed_ops-IsBuffer blank ++ (7 ∷ 2 ∷ 0 ∷ 2 ∷ 97 ∷ 98 ∷ 0 ∷ 1 ∷ 99 ∷ 13 ∷ 10 ∷ []))
    × (room fixed_ops l + 11 ≡ 64)
    × IsValid fixed_ops-IsBuffer l
serialize_appends_example =
    serialize_appends plain (linear_output-IsOutput fixed_ops-IsBuffer) request blank
      (omega arith, omega arith) blank-IsValid (omega arith)

-- The change of a variable, with one byte more behind it.
abbrev arrived : Linear Fixed
arrived = buffer_with (7 ∷ 6 ∷ 0 ∷ 0 ∷ 0 ∷ 5 ∷ 3 ∷ 0 ∷ 1 ∷ 17 ∷ 112 ∷ 13 ∷ 10 ∷ 42 ∷ []) 14

arrived-IsValid : IsValid fixed_ops-IsBuffer arrived
arrived-IsValid = record {
  self_valid = record { sized = refl; small = omega arith };
  read_in = omega arith;
  write_in = omega arith;
  mark_in = tt;
}

pending-arrived : pending fixed_ops-IsBuffer arrived ≡ encode plain change ++ (42 ∷ [])
unfolding pending written
pending-arrived = refl

deserialize_returns_example :
    (l : Linear Fixed) × (deserialize
        (binary_message_deserializer plain (linear_input fixed_ops))
        arrived
      ≡ (ok (received plain change), l))
    × (pending fixed_ops-IsBuffer l ≡ 42 ∷ [])
    × IsValid fixed_ops-IsBuffer l
deserialize_returns_example =
    deserialize_returns plain (linear_input-IsInput fixed_ops-IsBuffer) change (42 ∷ []) arrived
      (omega arith, tt) arrived-IsValid pending-arrived
