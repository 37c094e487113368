-- ===== src/Client/ConnectionManager/Lost.antt =====
-- What the client makes of a message that arrives in pieces: unlike the server, it sets no mark before it deserializes.
use open_airbus_cockpit.Prelude.{ℕ, ◌<◌, ◌≡◌, refl, List, [], length, ok, true}
use open_airbus_cockpit.Buffer.Interface.{IsBuffer}
use open_airbus_cockpit.Buffer.Ring.Laws.{contents}
use open_airbus_cockpit.Buffer.Ring.Inputs.{Unmarked, fresh_input-IsInput}
use open_airbus_cockpit.Buffer.Ring.Marks.{reset-none}
use open_airbus_cockpit.Proto.Binary.AnyBytes.{deserialize_short}
use open_airbus_cockpit.Client.ConnectionManager.{ConnectionManager, receives, Environment}
use open_airbus_cockpit.Client.ConnectionManager.Arrivals.{
  message_error, receive_message, on_message_received,
}

module _ {H U B : Type 0} (env : Environment H U B) {bytes : B → List ℕ} {Valid : B → Type 0}
    (laws : IsBuffer env.memory bytes Valid) where
  -- When less than the two bytes of a message type are in the client's ring, which is not full and has no mark,
  -- `on_message_received` asks for more bytes, but those that were there have gone.
  pub first_byte_lost :
      (n : ℕ) (c : ConnectionManager H U B)
      → Unmarked laws c.input_buffer
      → length (contents laws c.input_buffer) < 2
      → (c' : ConnectionManager H U B) × (on_message_received env true (ok n) c ≡ (ok receives, c'))
        × (contents laws c'.input_buffer ≡ [])
        × Unmarked laws c'.input_buffer
  unfolding on_message_received receive_message message_error
  first_byte_lost n c ready short =
      let (r, run, empty, ready') =
        deserialize_short env.f (fresh_input-IsInput laws) c.input_buffer ready short in
      let same = reset-none laws r ready'.mark in
      (record c { input_buffer = r }, rw (run, same) refl, empty, ready')
