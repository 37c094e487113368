-- ===== src/Proto/RoundTrip.antt =====
-- Messages through a stream: what is serialized at one end is deserialized at the other.
use open_airbus_cockpit.Prelude.{
  ℕ, zero, suc, ◌≤◌, ◌≡◌, sym, ap, ◌∙◌, List, [], ◌∷◌, ◌++◌, length, map, append-nil, ok, ◌>>=◌,
  ◌>>◌, return,
}
use open_airbus_cockpit.Exception.{Method}
use open_airbus_cockpit.Stream.Interface.{InputStream, OutputStream, IsInput, IsOutput}
use open_airbus_cockpit.Stream.Reads.{Gives, >>=-Gives, return-Gives}
use open_airbus_cockpit.Stream.Writes.{Emits, >>-Emits, return-Emits}
use open_airbus_cockpit.Proto.Messages.{Message}
use open_airbus_cockpit.Proto.Serial.{serialize}
use open_airbus_cockpit.Proto.Deserial.{deserialize}
use open_airbus_cockpit.Proto.Binary.{
  FloatOps, binary_message_serializer, binary_message_deserializer,
}
use open_airbus_cockpit.Proto.Binary.Format.{Packet, message, Fits, encode, received}
use open_airbus_cockpit.Proto.Binary.Serialize.{serialize-Emits}
use open_airbus_cockpit.Proto.Binary.Deserialize.{deserialize-Gives}

-- Messages one after the other, and as many back.
module _ (f : FloatOps) {S : Type 0} where
  pub send_all : OutputStream S → List Message → Method S (Unit {0})
  send_all output [] = return tt
  send_all output (m ∷ ms) = do serialize (binary_message_serializer f output) m; send_all output ms

  pub receive_all : InputStream S → ℕ → Method S (List Message)
  receive_all input zero = return []
  receive_all input (suc n) = do
    m ← deserialize (binary_message_deserializer f input)
    ms ← receive_all input n
    return (m ∷ ms)

abbrev pub AllFit : List Packet → Type 0
AllFit [] = Unit {0}
AllFit (p ∷ ps) = Fits p × AllFit ps

abbrev pub encode_all : FloatOps → List Packet → List ℕ
encode_all f [] = []
encode_all f (p ∷ ps) = encode f p ++ encode_all f ps

module _ (f : FloatOps) {S : Type 0} {input : InputStream S} {output : OutputStream S}
    {content : S → List ℕ} {room : S → ℕ} {Ready : S → Type 0} (reads : IsInput input content Ready)
    (writes : IsOutput output content room Ready) where
  send_all-Emits :
      (ps : List Packet)
      → AllFit ps
      → Emits writes (send_all f output (map message ps)) (encode_all f ps)
  unfolding send_all
  send_all-Emits [] h = return-Emits writes
  send_all-Emits (p ∷ ps) h =
      >>-Emits writes (encode f p) (encode_all f ps) (serialize-Emits f writes p h.0)
        (send_all-Emits ps h.1)

  receive_all-Gives :
      (ps : List Packet)
      → AllFit ps
      → Gives reads (receive_all f input (length ps)) (map (received f) ps) (encode_all f ps)
  unfolding receive_all
  receive_all-Gives [] h = return-Gives reads []
  receive_all-Gives (p ∷ ps) h =
      let later =
        >>=-Gives reads (λ ms. return (received f p ∷ ms)) (encode_all f ps) []
          (receive_all-Gives ps h.1) (return-Gives reads (received f p ∷ map (received f) ps)) in
      >>=-Gives reads _ (encode f p) (encode_all f ps) (deserialize-Gives f reads p h.0)
        (rw (append-nil (encode_all f ps)) at later)

  -- On a stream that keeps its promises, is empty and has room for them, any messages whose members
  -- fit their widths are serialized without error, and as many calls of `deserialize` return them in
  -- order, a float as what its significand and exponent make, and leave the stream empty.
  pub receive-send :
      (ps : List Packet) (s : S)
      → AllFit ps
      → Ready s
      → content s ≡ []
      → length (encode_all f ps) ≤ room s
      → (s' s'' : S) × (send_all f output (map message ps) s ≡ (ok tt, s'))
        × (receive_all f input (length ps) s' ≡ (ok (map (received f) ps), s''))
        × (content s'' ≡ [])
  receive-send ps s h ready empty fits =
      let sent = (send_all-Emits ps h).run s ready fits in
      let queued : content sent.0 ≡ encode_all f ps ++ [] =
        sent.2 ∙ ap (λ xs. xs ++ encode_all f ps) empty ∙ sym (append-nil (encode_all f ps)) in
      let got = (receive_all-Gives ps h).run sent.0 [] sent.4 queued in
      (sent.0, got.0, sent.1, got.1, got.2)
