-- ===== src/Proto/Marshall.antt =====
-- A message in a buffer of its own, as the server and the client send it (flightvars/src/module/server.cpp and
-- flightvars/src/lib/client/connection_manager.cpp).
use open_airbus_cockpit.Prelude.{
  ℕ, ◌≤◌, ◌<◌, ◌≡◌, refl, ap, ◌∙◌, arith, List, ◌++◌, length, ok, on_ok,
}
use open_airbus_cockpit.Prelude.Words.{u32_mod}
use open_airbus_cockpit.Exception.{Result}
use open_airbus_cockpit.Buffer.Fixed
use open_airbus_cockpit.Buffer.Fixed.{Fixed, fixed_ops}
use open_airbus_cockpit.Buffer.Fixed.Access.{fixed_ops-IsBuffer, create-IsValid}
use open_airbus_cockpit.Buffer.Linear
use open_airbus_cockpit.Buffer.Linear.{Linear}
use open_airbus_cockpit.Buffer.Linear.Laws.{pending}
use open_airbus_cockpit.Buffer.Linear.Streams
use open_airbus_cockpit.Buffer.Linear.Streams.{linear_output, linear_output-IsOutput}
use open_airbus_cockpit.Proto.Messages.{Message}
use open_airbus_cockpit.Proto.Serial.{serialize}
use open_airbus_cockpit.Proto.Binary.{FloatOps, binary_message_serializer}
use open_airbus_cockpit.Proto.Binary.Format.{Packet, Fits, message, encode}
use open_airbus_cockpit.Proto.Binary.Serialize.{serialize_appends}

-- The buffer, which is new and has `size` bytes, after `serialize`.
unfoldable pub marshall : FloatOps → ℕ → Message → Result (Linear Fixed)
marshall f size msg =
    let (o, buff) =
      serialize (binary_message_serializer f (linear_output fixed_ops)) msg
        (Linear.create fixed_ops (Fixed.create size)) in
    on_ok o (λ _. ok buff)

abbrev pub on_wire : Linear Fixed → List ℕ
on_wire = pending fixed_ops-IsBuffer

-- A message that fits the buffer.
pub marshall_lem :
    (f : FloatOps) (size : ℕ) (p : Packet)
    → Fits p
    → length (encode f p) ≤ size
    → size < u32_mod
    → (buff : Linear Fixed) × (marshall f size (message p) ≡ ok buff) × (on_wire buff ≡ encode f p)
unfolding marshall Linear.create Fixed.create
marshall_lem f size p fits small bound =
    let start = Linear.create fixed_ops (Fixed.create size) in
    let (valid, empty) =
      Streams.create-IsValid fixed_ops-IsBuffer (Fixed.create size) (create-IsValid size bound) in
    let (buff, run, sent, left, valid') =
      serialize_appends f (linear_output-IsOutput fixed_ops-IsBuffer) p start fits valid
        (omega arith) in
    (buff, rw run refl, sent ∙ ap (λ l. l ++ encode f p) empty)
