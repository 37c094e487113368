-- ===== src/Server/Receiving.antt =====
-- What `flight_vars_server` makes of the bytes that have arrived for a session.
use open_airbus_cockpit.Prelude.{
  ℕ, Bool-cases, ◌<◌, ◌≡◌, ◌≢◌, refl, sym, ap, ◌∙◌, inl, inr, List, ◌++◌, length, Outcome, ok,
  throws, undefined, diverges, and_then, and_then-ok, catching, return,
}
use open_airbus_cockpit.Exception.{Exception}
use open_airbus_cockpit.Buffer.Interface.{Buffer, IsBuffer}
use open_airbus_cockpit.Buffer.Ring.{Ring, set_mark, unset_mark, reset}
use open_airbus_cockpit.Buffer.Ring.Laws.{contents}
use open_airbus_cockpit.Buffer.Ring.Inputs.{
  Idle, Marked, Marked-suffix, ring_input-IsInput, set_mark-Marked, reset-Idle, unset_mark-Idle,
}
use open_airbus_cockpit.Buffer.Ring.Streams.{ring_input}
use open_airbus_cockpit.Stream.Safe.{Ended}
use open_airbus_cockpit.Proto.Messages.{Message}
use open_airbus_cockpit.Proto.Deserial.{deserialize}
use open_airbus_cockpit.Proto.Binary.{FloatOps, binary_message_deserializer}
use open_airbus_cockpit.Proto.Binary.Format.{Packet, Fits, encode, received}
use open_airbus_cockpit.Proto.Binary.Deserialize.{deserialize_returns}
use open_airbus_cockpit.Proto.Binary.AnyBytes.{deserialize_ends}
use open_airbus_cockpit.Subscription.Relations.{Bimap}
use open_airbus_cockpit.Core.{FlightVars}
use open_airbus_cockpit.Server.{
  Library, ServerException, raised, Next, reads_request, asks_nothing, Server, is_eof, unmarshall,
  process, request_error, on_read_request,
}

module _ {B : Type 0} {memory : Buffer B} {bytes : B → List ℕ} {Valid : B → Type 0}
    (laws : IsBuffer memory bytes Valid) (f : FloatOps) where
  -- What `unmarshall` comes to on a ring that holds `bs`: a message, and a ring with the last of the bytes, or an exception,
  -- after which `reset` gives all the bytes back.
  pub data Unmarshalled (c : ℕ) (bs : List ℕ) (x : Outcome Exception Message × Ring B)
      : Type 0 where
    message_read :
        (msg : Message) (rest : List ℕ) (r : Ring B)
        → x ≡ (ok msg, r)
        → (taken : List ℕ) × (bs ≡ taken ++ rest)
        → Idle laws c rest r
        → Unmarshalled c bs x
    failed :
        (e : Exception) (r : Ring B)
        → x ≡ (throws e, r)
        → Idle laws c bs (reset memory r)
        → Unmarshalled c bs x

  Ended-Unmarshalled :
      (c m : ℕ) (bs : List ℕ) (x : Outcome Exception Message × Ring B)
      → Ended x.0
      → Marked laws c m bs x.1
      → Unmarshalled c bs
          (and_then x (λ msg r. and_then (return tt (unset_mark memory r)) (λ _. return msg)))
  Ended-Unmarshalled c m bs (ok msg, r) e ready =
      message_read msg (contents laws r) (unset_mark memory r) refl
        (Marked-suffix laws c m bs r ready) (unset_mark-Idle laws c m bs r ready)
  Ended-Unmarshalled c m bs (throws a, r) e ready = failed a r refl (reset-Idle laws c m bs r ready)
  Ended-Unmarshalled c m bs (undefined, r) e ready = elim e [ ]
  Ended-Unmarshalled c m bs (diverges, r) e ready = elim e [ ]

  pub unmarshall-Unmarshalled :
      (c : ℕ) (bs : List ℕ) (r : Ring B)
      → Idle laws c bs r
      → length bs < c
      → Unmarshalled c bs (unmarshall memory f r)
  unfolding unmarshall
  unmarshall-Unmarshalled c bs r idle unfull =
      let (marked, same) = set_mark-Marked laws c bs r idle unfull in
      let (ended, ready) =
        deserialize_ends f (ring_input-IsInput laws c r.read_index bs) (set_mark memory r) marked in
      Ended-Unmarshalled c r.read_index bs
        (deserialize (binary_message_deserializer f (ring_input memory)) (set_mark memory r)) ended
        ready

  -- A whole message at the front of the ring.
  pub unmarshall_message :
      (c : ℕ) (p : Packet) (rest : List ℕ) (r : Ring B)
      → Fits p
      → Idle laws c (encode f p ++ rest) r
      → length (encode f p ++ rest) < c
      → (r' : Ring B) × (unmarshall memory f r ≡ (ok (received f p), r')) × Idle laws c rest r'
  unfolding unmarshall
  unmarshall_message c p rest r fits idle unfull =
      let bs = encode f p ++ rest in
      let (marked, same) = set_mark-Marked laws c bs r idle unfull in
      let (r', run, left, ready) =
        deserialize_returns f (ring_input-IsInput laws c r.read_index bs) p rest (set_mark memory r)
          fits marked same in
      let done = unset_mark-Idle laws c r.read_index bs r' ready in
      (
        unset_mark memory r',
        and_then-ok _ run,
        record {
          valid = done.valid;
          size = done.size;
          fresh = done.fresh;
          holds = done.holds ∙ left;
        },
      )

  -- The message, and the bytes behind it, are those of the packet that the bytes begin with, if they begin with one.
  abbrev pub First : List ℕ → Message → List ℕ → Type 0
  First bs msg rest =
      (p : Packet) (tail : List ℕ)
      → Fits p
      → bs ≡ encode f p ++ tail
      → (msg ≡ received f p) × (rest ≡ tail)

  -- The bytes do not begin with a packet.
  abbrev pub NoPacket : List ℕ → Type 0
  NoPacket bs = (p : Packet) (tail : List ℕ) → Fits p → bs ≢ encode f p ++ tail

  -- `unmarshall_message` where the bytes begin with the packet.
  packet_read :
      (c : ℕ) (bs : List ℕ) (p : Packet) (tail : List ℕ) (r : Ring B)
      → Idle laws c bs r
      → length bs < c
      → Fits p
      → bs ≡ encode f p ++ tail
      → (r' : Ring B) × (unmarshall memory f r ≡ (ok (received f p), r')) × Idle laws c tail r'
  packet_read c bs p tail r idle unfull fits same =
      unmarshall_message c p tail r fits (rw (← same) idle) (rw (← same) unfull)

  message-First :
      (c : ℕ) (bs rest : List ℕ) (msg : Message) (r r' : Ring B)
      → Idle laws c bs r
      → length bs < c
      → unmarshall memory f r ≡ (ok msg, r')
      → Idle laws c rest r'
      → First bs msg rest
  message-First c bs rest msg r r' idle unfull run after p tail fits same =
      let (r1, run1, after1) = packet_read c bs p tail r idle unfull fits same in
      let both = sym run ∙ run1 in
      let messages : ok msg ≡ ok (received f p) = ap (λ t. t.0) both in
      (cc, sym after.holds ∙ ap (λ t. contents laws t.1) both ∙ after1.holds)

  failure-NoPacket :
      (c : ℕ) (bs : List ℕ) (e : Exception) (r r' : Ring B)
      → Idle laws c bs r
      → length bs < c
      → unmarshall memory f r ≡ (throws e, r')
      → NoPacket bs
  failure-NoPacket c bs e r r' idle unfull run p tail fits same =
      let (r1, run1, _) = packet_read c bs p tail r idle unfull fits same in
      let differ : throws e ≡ ok (received f p) = ap (λ t. t.0) (sym run ∙ run1) in cc

module _ {D H S B : Type 0} (ops : FlightVars D H) (delegate : ℕ) (handle : H) (map : Bimap S)
    {memory : Buffer B} {bytes : B → List ℕ} {Valid : B → Type 0}
    (laws : IsBuffer memory bytes Valid) (f : FloatOps) (lib : Library) where
  -- What `on_read_request` comes to: a message is processed, the first one if the bytes begin with a packet, and the bytes
  -- behind it stay in the ring; bytes that do not begin with a packet all stay, and more are asked for; or
  -- they end the session.
  pub data Handled (c : ℕ) (bs : List ℕ) (s : Server D S B)
      (x : Outcome ServerException Next × Server D S B) : Type 0 where
    processed :
        (msg : Message) (rest : List ℕ) (r : Ring B)
        → x
          ≡ catching
              (process ops delegate handle map memory f lib msg (record s { input_buffer = r }))
              (request_error ops delegate handle map memory f lib)
        → (taken : List ℕ) × (bs ≡ taken ++ rest)
        → First laws f bs msg rest
        → Idle laws c rest r
        → Handled c bs s x
    waits :
        (r : Ring B)
        → x ≡ (ok reads_request, record s { input_buffer = r })
        → NoPacket laws f bs
        → Idle laws c bs r
        → Handled c bs s x
    over :
        (r : Ring B)
        → NoPacket laws f bs
        → x ≡ (ok asks_nothing, record s { input_buffer = r })
        → Handled c bs s x

  -- Whatever bytes have arrived for a session whose ring holds fewer than it could, `on_read_request` of a read that
  -- succeeded handles them. If they begin with the binary form of a packet, it processes that packet's message and keeps just the
  -- bytes behind it. Otherwise it processes a message and keeps the last of the bytes, or keeps all the bytes and
  -- asks for more, or ends the session.
  pub on_read_request_any_bytes :
      (c n : ℕ) (bs : List ℕ) (s : Server D S B)
      → Idle laws c bs s.input_buffer
      → length bs < c
      → Handled c bs s (on_read_request ops delegate handle map memory f lib (ok n) s)
  unfolding on_read_request request_error
  on_read_request_any_bytes c n bs s idle unfull =
      elim (unmarshall-Unmarshalled laws f c bs s.input_buffer idle unfull) [
        | message_read msg rest r e suffix idle' ↦
            processed msg rest r (rw e refl) suffix
              (message-First laws f c bs rest msg s.input_buffer r idle unfull e idle') idle'
        | failed a r e idle' ↦ elim (Bool-cases (is_eof (raised a))) [
          | inl h ↦
              waits (reset memory r) (rw (e, h) refl)
                (failure-NoPacket laws f c bs a s.input_buffer r idle unfull e) idle'
          | inr h ↦
              over r (failure-NoPacket laws f c bs a s.input_buffer r idle unfull e)
                (rw (e, h) refl)
        ]
      ]
