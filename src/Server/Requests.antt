-- ===== src/Server/Requests.antt =====
-- What `flight_vars_server` does on the requests of a client, from the bytes that arrive to the bytes that are written.
use open_airbus_cockpit.Prelude.{
  ℕ, ◌≤◌, ◌<◌, ◌≡◌, refl, arith, List, [], ◌++◌, length, none, some, Outcome, ok, throws, and_then,
}
use open_airbus_cockpit.Prelude.Words.{u16_mod, u32_mod}
use open_airbus_cockpit.Exception.{no_such_variable_error, no_such_subscription_error}
use open_airbus_cockpit.Var.Types.{VariableId, variable_id}
use open_airbus_cockpit.Buffer.Interface.{Buffer, IsBuffer}
use open_airbus_cockpit.Buffer.Fixed.{Fixed}
use open_airbus_cockpit.Buffer.Linear.{Linear}
use open_airbus_cockpit.Buffer.Ring.{Ring}
use open_airbus_cockpit.Buffer.Ring.Inputs.{Idle}
use open_airbus_cockpit.Proto.Messages.{
  Message, subscription_reply_message, unsubscription_reply_message,
}
use open_airbus_cockpit.Proto.SubscriptionStatus.{
  subscribed, unsubscribed, no_such_var, no_such_subscription, var_already_subscribed, unknown,
}
use open_airbus_cockpit.Proto.Binary.{FloatOps}
use open_airbus_cockpit.Proto.Binary.Format.{
  Packet, subscription_request, subscription_reply, var_update, Content, bool_content, byte_content,
  word_content, dword_content, float_content, value, message, Fits, encode,
}
use open_airbus_cockpit.Subscription.Relations.{Bimap, IsBimap}
use open_airbus_cockpit.Subscription.{MappingException, get_subscription_id, get_var_id}
use open_airbus_cockpit.Subscription.Lookups.{
  insert_lem, unregister_id-some, unregister_id-none, variable_subscription_exists-some,
  variable_subscription_exists-none, register_subscription_new, get_subscription_id-some,
  get_subscription_id-none, get_var_id-some,
}
use open_airbus_cockpit.Core.{FlightVars}
use open_airbus_cockpit.Server.{
  Library, ServerException, writes, then_read_request, then_nothing, asks_nothing, Server,
  unmarshall, write_message, handle_subscription_request, handle_unsubscription_request, process,
  no_such_variable_reply, unsubscription_error_reply, unsent_update, on_read_request,
  send_var_update,
}
use open_airbus_cockpit.Server.Receiving.{unmarshall_message}
use open_airbus_cockpit.Proto.Marshall.{on_wire, marshall_lem}
use open_airbus_cockpit.Server.Texts.{
  variable_already_subscribed, no_such_variable, no_such_subscription_with_id,
  error_while_unsubscribing,
}

short_update : (f : FloatOps) (id : ℕ) (a : Content) → length (encode f (var_update id a)) ≤ 1024
short_update f id (bool_content b) = omega arith
short_update f id (byte_content v h) = omega arith
short_update f id (word_content v h) = omega arith
short_update f id (dword_content v h) = omega arith
short_update f id (float_content v h) = omega arith

module _ {D H S B : Type 0} (ops : FlightVars D H) (delegate : ℕ) (handle : H) {map : Bimap S}
    {MapValid : S → Type 0} (mapping : IsBimap map MapValid) {memory : Buffer B}
    {bytes : B → List ℕ} {Valid : B → Type 0} (laws : IsBuffer memory bytes Valid) (f : FloatOps)
    (lib : Library) where
  -- The identifier that the session makes of the group and the name of a request.
  abbrev pub requested : List ℕ → List ℕ → VariableId
  requested grp name = variable_id lib.to_lower_copy grp name

  subscription_granted :
      (grp name : List ℕ) (id : ℕ) (d : D) (s : Server D S B)
      → map.find_left (requested grp name) s.subscriptions ≡ none
      → map.find_right id s.subscriptions ≡ none
      → ops.subscribe delegate (requested grp name) handle s.delegate ≡ (ok id, d)
      → handle_subscription_request ops delegate handle map memory f lib grp name s ≡ (
        ok (subscription_reply_message subscribed grp name id []),
        record s {
          delegate = d;
          subscriptions = map.insert (requested grp name) id s.subscriptions;
        },
      )
  unfolding handle_subscription_request
  subscription_granted grp name id d s new_var new_id granted =
      rw
        (
          variable_subscription_exists-none map (requested grp name) s.subscriptions new_var,
          granted,
          register_subscription_new map (requested grp name) id s.subscriptions new_var new_id,
        )
        refl

  -- A request that is answered with a message that fits the buffer.
  answered :
      (c n : ℕ) (p q : Packet) (rest : List ℕ) (s s' : Server D S B) (r : Ring B)
      (handler : Outcome ServerException Message × Server D S B)
      → unmarshall memory f s.input_buffer ≡ (ok (message p), r)
      → process ops delegate handle map memory f lib (message p) (record s { input_buffer = r })
        ≡ and_then handler
            (λ rep. write_message ops delegate handle map memory f lib rep then_read_request)
      → handler ≡ (ok (message q), s')
      → Fits q
      → length (encode f q) ≤ 1024
      → (buff : Linear Fixed) × (on_read_request ops delegate handle map memory f lib (ok n) s
          ≡ (ok (writes buff then_read_request), s'))
        × (on_wire buff ≡ encode f q)
  unfolding on_read_request write_message
  answered c n p q rest s s' r handler got processes replies fits small =
      let (buff, run, wire) = marshall_lem f 1024 q fits small (omega arith) in
      (buff, rw (got, processes, replies, run) refl, wire)

  -- What is left of a session after a request: the state of the delegate, and the ring with the bytes behind the request.
  pub record After (c : ℕ) (d : D) (rest : List ℕ) (s : Server D S B) : Type 0 where
    pub delegate_state : s.delegate ≡ d
    pub ring : Idle laws c rest s.input_buffer
    pub mapper : MapValid s.subscriptions

  -- When a session's ring, not full, begins with a request to subscribe to a variable that the session has not subscribed to, and the
  -- delegate grants it under an identifier that is new to the session, `on_read_request` writes the reply
  -- with that identifier, if it fits the buffer, and goes on reading after it; the session then knows the variable under the identifier,
  -- and its ring holds the bytes behind the request.
  pub on_read_request_subscribes :
      (c n : ℕ) (grp name rest : List ℕ) (id : ℕ) (d : D) (s : Server D S B)
      → Idle laws c (encode f (subscription_request grp name) ++ rest) s.input_buffer
      → length (encode f (subscription_request grp name) ++ rest) < c
      → length grp < u16_mod
      → length name < u16_mod
      → id < u32_mod
      → length (encode f (subscription_reply subscribed grp name id [])) ≤ 1024
      → MapValid s.subscriptions
      → map.find_left (requested grp name) s.subscriptions ≡ none
      → map.find_right id s.subscriptions ≡ none
      → ops.subscribe delegate (requested grp name) handle s.delegate ≡ (ok id, d)
      → (buff : Linear Fixed) × (s' : Server D S B) × (on_read_request ops delegate handle map
            memory f lib
            (ok n)
            s
          ≡ (ok (writes buff then_read_request), s'))
        × (on_wire buff ≡ encode f (subscription_reply subscribed grp name id []))
        × (get_subscription_id map (requested grp name) s'.subscriptions ≡ ok id)
        × (get_var_id map id s'.subscriptions ≡ ok (requested grp name))
        × After c d rest s'
  unfolding process
  on_read_request_subscribes c n grp name rest id d s idle unfull short_grp short_name small_id
        small valid new_var new_id granted =
      let v = requested grp name in
      let (r, got, idle') =
        unmarshall_message laws f c (subscription_request grp name) rest s.input_buffer
          (short_grp, short_name) idle unfull in
      let (there, back, valid') = insert_lem mapping v id s.subscriptions valid new_var new_id in
      let s' : Server D S B = record {
        delegate = d;
        subscriptions = map.insert v id s.subscriptions;
        input_buffer = r;
      } in
      let (buff, run, wire) =
        answered c n (subscription_request grp name) (subscription_reply subscribed grp name id [])
          rest s s' r
          (handle_subscription_request ops delegate handle map memory f lib grp name
            (record s { input_buffer = r }))
          got refl
          (subscription_granted grp name id d (record s { input_buffer = r }) new_var new_id
            granted)
          (omega arith, short_grp, short_name, small_id, omega arith) small in
      (
        buff,
        s',
        run,
        wire,
        get_subscription_id-some map v id (map.insert v id s.subscriptions) there,
        get_var_id-some map v id (map.insert v id s.subscriptions) back,
        record { delegate_state = refl; ring = idle'; mapper = valid' },
      )

  -- A request to subscribe to a variable that the session has subscribed to is refused, and the delegate is not asked; one for
  -- a variable that the delegate does not know is refused too. Neither changes what the session knows.
  pub handle_subscription_request_refuses :
      (grp name : List ℕ) (known : ℕ) (d : D) (s t : Server D S B)
      → map.find_left (requested grp name) s.subscriptions ≡ some known
      → map.find_left (requested grp name) t.subscriptions ≡ none
      → ops.subscribe delegate (requested grp name) handle t.delegate
        ≡ (throws (no_such_variable_error (requested grp name)), d)
      → (handle_subscription_request ops delegate handle map memory f lib grp name s ≡ (
        ok (
            subscription_reply_message var_already_subscribed grp name 0
              variable_already_subscribed),
        s,
      ))
        × (handle_subscription_request ops delegate handle map memory f lib grp name t ≡ (
          ok (subscription_reply_message no_such_var grp name 0 no_such_variable),
          record t { delegate = d },
        ))
  unfolding handle_subscription_request no_such_variable_reply
  handle_subscription_request_refuses grp name known d s t there nowhere refused =
      let v = requested grp name in
      (
        rw (variable_subscription_exists-some map v known s.subscriptions there) refl,
        rw (variable_subscription_exists-none map v t.subscriptions nowhere, refused) refl,
      )

  -- When the delegate unsubscribes an identifier, the reply says so if the session had subscribed under it, and the session
  -- does not know the variable any more; it says `UNKNOWN` if the session had not, and the delegate has
  -- unsubscribed all the same. When the delegate does not know the identifier, the reply says that, and the session keeps what it knows.
  pub handle_unsubscription_request_lem :
      (v : VariableId) (id other : ℕ) (d d' : D) (s t : Server D S B)
      → MapValid s.subscriptions
      → map.find_right id s.subscriptions ≡ some v
      → map.find_right id t.subscriptions ≡ none
      → t.delegate ≡ s.delegate
      → ops.unsubscribe delegate id s.delegate ≡ (ok tt, d)
      → ops.unsubscribe delegate other s.delegate ≡ (throws (no_such_subscription_error other), d')
      → (s' : Server D S B) × (handle_unsubscription_request ops delegate handle map memory f lib id
            s
          ≡ (ok (unsubscription_reply_message unsubscribed id []), s'))
        × (get_subscription_id map v s'.subscriptions
            ≡ throws (MappingException.no_such_variable_error v))
        × (s'.delegate ≡ d)
        × (handle_unsubscription_request ops delegate handle map memory f lib id t ≡ (
          ok (unsubscription_reply_message unknown id (lib.format error_while_unsubscribing id)),
          record t { delegate = d },
        ))
        × (handle_unsubscription_request ops delegate handle map memory f lib other s ≡ (
          ok (
              unsubscription_reply_message no_such_subscription other
                (lib.format no_such_subscription_with_id other)),
          record s { delegate = d' },
        ))
  unfolding handle_unsubscription_request unsubscription_error_reply
  handle_unsubscription_request_lem v id other d d' s t valid there nowhere same done unknown_id =
      let (m, run, gone, valid') = unregister_id-some mapping v id s.subscriptions valid there in
      (
        record s { delegate = d; subscriptions = m },
        rw (done, run) refl,
        get_subscription_id-none map v m gone,
        refl,
        rw (same, done, unregister_id-none mapping id t.subscriptions nowhere) refl,
        rw unknown_id refl,
      )

  -- An update of a variable that the session knows is written with the identifier of its subscription;
  -- for a variable that it does not know nothing is written. Neither changes the session.
  pub send_var_update_lem :
      (v w : VariableId) (id : ℕ) (a : Content) (s : Server D S B)
      → map.find_left v s.subscriptions ≡ some id
      → map.find_left w s.subscriptions ≡ none
      → id < u32_mod
      → (buff : Linear Fixed) × (send_var_update ops delegate handle map memory f lib v (value a) s
          ≡ (ok (writes buff then_nothing), s))
        × (on_wire buff ≡ encode f (var_update id a))
        × (send_var_update ops delegate handle map memory f lib w (value a) s
            ≡ (ok asks_nothing, s))
  unfolding send_var_update write_message unsent_update
  send_var_update_lem v w id a s there nowhere small_id =
      let (buff, run, wire) =
        marshall_lem f 1024 (var_update id a) (small_id, tt) (short_update f id a) (omega arith) in
      (
        buff,
        rw (get_subscription_id-some map v id s.subscriptions there, run) refl,
        wire,
        rw (get_subscription_id-none map w s.subscriptions nowhere) refl,
      )
