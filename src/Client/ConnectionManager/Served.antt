-- ===== src/Client/ConnectionManager/Served.antt =====
-- A subscription of the client, from its request to the answer of its promise.
use open_airbus_cockpit.Prelude.{
  ℕ, ◌≤◌, ◌<◌, ◌≡◌, refl, ap, ◌∙◌, arith, List, [], ◌∷◌, ◌++◌, length, none, ok, throws,
  and_then-ok,
}
use open_airbus_cockpit.Prelude.Words.{u16_mod}
use open_airbus_cockpit.Prelude.Maps.{find, assign, same_number, find-assign_same}
use open_airbus_cockpit.Var.Types.{VariableId, variable_id, same_variable}
use open_airbus_cockpit.Buffer.Fixed.{Fixed}
use open_airbus_cockpit.Buffer.Linear.{Linear}
use open_airbus_cockpit.Proto.Messages.{subscription_reply_message}
use open_airbus_cockpit.Proto.SubscriptionStatus.{SubscriptionStatus, subscribed}
use open_airbus_cockpit.Proto.Marshall.{on_wire, marshall_lem}
use open_airbus_cockpit.Proto.Binary.Format.{subscription_request, encode}
use open_airbus_cockpit.Client.Exceptions.{request_timeout_error}
use open_airbus_cockpit.Client.SubscriptionDb.{
  SubscriptionDb, create_entry, master_of_variable, handlers_of,
}
use open_airbus_cockpit.Client.SubscriptionDb.Sound.{Sound}
use open_airbus_cockpit.Client.SubscriptionDb.Lookups.{entry_defined-none, handlers_of-some}
use open_airbus_cockpit.Client.SubscriptionDb.Entries.{
  new_entry, opened, opened-Entered, opened-Sound,
}
use open_airbus_cockpit.Client.SubscriptionDb.Additions.{
  upcoming, added, with_added, with_added-Entered, with_added-Sound, create_entry-new,
  master_of_variable-some,
}
use open_airbus_cockpit.Client.Requests.{
  Answer, result, Answers, answer, get_result, SubscriptionRequest, RequestPool, listed,
  insert_subscription, pop_subscription_requests,
}
use open_airbus_cockpit.Client.ConnectionManager.{ConnectionManager, Environment, send_message}
use open_airbus_cockpit.Client.ConnectionManager.Requested.{on_subscription_requested}
use open_airbus_cockpit.Client.ConnectionManager.Replies.{
  subscribe_one, subscribe_each, answer_subscriptions, on_subscription_reply_received,
  handle_message,
}

answer-new :
    (promise : ℕ) (a : Answer) (answers : Answers)
    → find promise answers ≡ none
    → answer promise a answers ≡ (ok tt, assign promise a answers)
unfolding answer
answer-new promise a answers h = rw (h, answer) refl

get_result-answered :
    (promise id : ℕ) (answers : Answers)
    → get_result promise (assign promise (result id) answers) ≡ ok (result id)
unfolding get_result
get_result-answered promise id answers =
    rw (find-assign_same promise (result id) answers, get_result) refl

get_result-waits :
    (promise : ℕ) (answers : Answers)
    → find promise answers ≡ none
    → get_result promise answers ≡ throws request_timeout_error
unfolding get_result
get_result-waits promise answers h = rw (h, get_result) refl

pop-insert :
    {H : Type 0} (req : SubscriptionRequest H) (pool : RequestPool H)
    → listed (find req.var_id pool.subs_reqs) ≡ []
    → (pop_subscription_requests req.var_id (insert_subscription req pool)).0 ≡ req ∷ []
unfolding pop_subscription_requests insert_subscription listed
pop-insert req pool h =
    rw
      (find-assign_same req.var_id (listed (find req.var_id pool.subs_reqs) ++ (req ∷ []))
        pool.subs_reqs)
      (ap (λ l. l ++ (req ∷ [])) h)

module _ {H U B : Type 0} (env : Environment H U B) where
  requested :
      (req : SubscriptionRequest H) (c : ConnectionManager H U B)
      → find req.var_id c.db.var_id_map ≡ none
      → length req.var_id.group < u16_mod
      → length req.var_id.name < u16_mod
      → length (encode env.f (subscription_request req.var_id.group req.var_id.name)) ≤ 1024
      → (buff : Linear Fixed) × (on_subscription_requested env req c ≡ (
        ok tt,
        record c {
          request_pool = insert_subscription req c.request_pool;
          written = buff ∷ c.written;
        },
      ))
        × (on_wire buff ≡ encode env.f (subscription_request req.var_id.group req.var_id.name))
  unfolding on_subscription_requested send_message
  requested req c new_var short_grp short_name small =
      let (buff, run, wire) =
        marshall_lem env.f 1024 (subscription_request req.var_id.group req.var_id.name)
          (short_grp, short_name) small (omega arith) in
      (buff, rw (entry_defined-none req.var_id c.db new_var, run) refl, wire)

  subscribed_one :
      (req : SubscriptionRequest H) (m : ℕ) (c : ConnectionManager H U B) (db : SubscriptionDb H)
      → find req.var_id c.db.var_id_map ≡ none
      → find req.promise c.answers ≡ none
      → create_entry req.var_id m req.handler c.db ≡ (ok (upcoming c.db), db)
      → subscribe_one env req.var_id m req c ≡ (
        ok tt,
        record c { db = db; answers = assign req.promise (result (upcoming c.db)) c.answers },
      )
  unfolding subscribe_one
  subscribed_one req m c db new_var unanswered made =
      rw
        (
          entry_defined-none req.var_id c.db new_var,
          made,
          answer-new req.promise (result (upcoming c.db)) c.answers unanswered,
        )
        refl

  -- A reply with names of which the constructor makes an identifier.
  replied :
      (st : SubscriptionStatus) (v : VariableId) (grp name : List ℕ) (m : ℕ) (cause : List ℕ)
      (c : ConnectionManager H U B)
      → variable_id env.to_lower_copy grp name ≡ v
      → handle_message env (subscription_reply_message st grp name m cause) c
        ≡ answer_subscriptions env st v m
            (pop_subscription_requests v c.request_pool).0
            (record c { request_pool = (pop_subscription_requests v c.request_pool).1 })
  unfolding handle_message on_subscription_reply_received
  replied st v grp name m cause c made =
      ap
        (λ w.
          answer_subscriptions env st w m (pop_subscription_requests w c.request_pool).0
            (record c { request_pool = (pop_subscription_requests w c.request_pool).1 }))
        made

  -- Nobody has asked for a variable that a sound database does not have. A request to subscribe to it is written to
  -- the server, if it fits the buffer, and its promise waits. When the server then replies that it is subscribed under an
  -- identifier that the database has not, with names that in lower case are those of the variable, the promise gets a
  -- new identifier, and the variable leads to the server's
  -- identifier, whose only handler is that of the request; the database is sound.
  pub subscription_served :
      (req : SubscriptionRequest H) (grp name : List ℕ) (m : ℕ) (cause : List ℕ)
      (c : ConnectionManager H U B)
      → variable_id env.to_lower_copy grp name ≡ req.var_id
      → Sound c.db
      → find req.var_id c.db.var_id_map ≡ none
      → find m c.db.master_subs_id_map ≡ none
      → find (upcoming c.db) c.db.virtual_subs_id_map ≡ none
      → find req.promise c.answers ≡ none
      → listed (find req.var_id c.request_pool.subs_reqs) ≡ []
      → length req.var_id.group < u16_mod
      → length req.var_id.name < u16_mod
      → length (encode env.f (subscription_request req.var_id.group req.var_id.name)) ≤ 1024
      → (buff : Linear Fixed) × (c1 c2 : ConnectionManager H U B) × (on_subscription_requested env
            req c
          ≡ (ok tt, c1))
        × (c1.written ≡ buff ∷ c.written)
        × (on_wire buff ≡ encode env.f (subscription_request req.var_id.group req.var_id.name))
        × (get_result req.promise c1.answers ≡ throws request_timeout_error)
        × (handle_message env (subscription_reply_message subscribed grp name m cause) c1
            ≡ (ok tt, c2))
        × (get_result req.promise c2.answers ≡ ok (result (upcoming c.db)))
        × (master_of_variable req.var_id c2.db ≡ (ok m, c2.db))
        × (handlers_of m c2.db
            ≡ (ok (req.var_id, record { id = upcoming c.db; handler = req.handler } ∷ []), c2.db))
        × Sound c2.db
  unfolding answer_subscriptions subscribe_each
  subscription_served req grp name m cause c same s new_var new_master new_id unanswered nobody
        short_grp short_name small =
      let (buff, run, wire) = requested req c new_var short_grp short_name small in
      let v = req.var_id in
      let p = c.db.next_entry in
      let e = new_entry v m in
      let db1 = opened v m c.db in
      let db = with_added req.handler p e db1 in
      let x1 = opened-Entered v m c.db in
      let x = with_added-Entered req.handler p e db1 x1 in
      let e' = record e { virtual_subs = added req.handler e db1 } in
      let c1 : ConnectionManager H U B = record c {
        request_pool = insert_subscription req c.request_pool;
        written = buff ∷ c.written;
      } in
      let popped : ConnectionManager H U B = record c1 {
        request_pool = (pop_subscription_requests v c1.request_pool).1;
      } in
      let one =
        subscribed_one req m popped db new_var unanswered
          (create_entry-new v m req.handler c.db new_var new_master) in
      (
        buff,
        c1,
        record popped { db = db; answers = assign req.promise (result (upcoming c.db)) c.answers },
        run,
        refl,
        wire,
        get_result-waits req.promise c.answers unanswered,
        replied subscribed v grp name m cause c1 same
            ∙ ap (λ reqs. answer_subscriptions env subscribed v m reqs popped)
                (pop-insert req c.request_pool nobody)
            ∙ and_then-ok _ one,
        get_result-answered req.promise (upcoming c.db) c.answers,
        master_of_variable-some p e' db x,
        handlers_of-some m p e' db x.master x.there x.variable,
        with_added-Sound req.handler p e db1 (opened-Sound v m c.db s new_var new_master) x1 new_id,
      )
