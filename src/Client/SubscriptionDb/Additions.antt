-- ===== src/Client/SubscriptionDb/Additions.antt =====
-- What `create_entry` and `add_virtual_subscription` of `subscription_db` come to.
use open_airbus_cockpit.Prelude.{
  ℕ, ◌≡◌, ◌≢◌, refl, sym, ap, ◌∙◌, List, [], ◌∷◌, ◌++◌, none, some, ok, throws, Action, and_then,
  and_then-ok, and_then-return, and_then-and_then, fun_ext,
}
use open_airbus_cockpit.Prelude.Maps.{
  find, assign, same_number, find-assign_same, find-assign_other,
}
use open_airbus_cockpit.Subscription.{make_subscription_id}
use open_airbus_cockpit.Var.Types.{VariableId, same_variable}
use open_airbus_cockpit.Var.Value.{VariableValue}
use open_airbus_cockpit.Client.SubscriptionDb.{
  DbException, variable_already_exists_error, master_subscription_already_exists_error, Virtual,
  Entry, SubscriptionDb, is_defined, variable_defined, master_subscription_defined, init_entry,
  add_virtual_subscription, create_entry, master_of_variable, master_of_virtual, handlers_of,
  invoke_each, invoke_handlers,
}
use open_airbus_cockpit.Client.SubscriptionDb.Sound.{
  Entered, Sound, relisted, relisted-Entered, appended-Sound,
}
use open_airbus_cockpit.Client.SubscriptionDb.Entries.{
  new_entry, opened, opened-Entered, opened-Sound,
}
use open_airbus_cockpit.Client.SubscriptionDb.Lookups.{
  deref-some, get_entry_by_var-some, get_entry_by_virtual-some, handlers_of-some,
}

module _ {H : Type 0} where
  -- The identifier that the next subscription gets.
  abbrev pub upcoming : SubscriptionDb H → ℕ
  upcoming db = (make_subscription_id db.next_id).0

  abbrev pub added : H → Entry H → SubscriptionDb H → List (Virtual H)
  added h e db = e.virtual_subs ++ (record { id = upcoming db; handler = h } ∷ [])

  abbrev pub with_added : H → ℕ → Entry H → SubscriptionDb H → SubscriptionDb H
  with_added h p e db =
      relisted db p e (added h e db) (assign (upcoming db) p db.virtual_subs_id_map)
        (make_subscription_id db.next_id).1

  pub add_virtual_subscription-some :
      (h : H) (p : ℕ) (e : Entry H) (db : SubscriptionDb H)
      → find e.var_id db.var_id_map ≡ some p
      → find p db.entries ≡ some e
      → add_virtual_subscription e.var_id h db ≡ (ok (upcoming db), with_added h p e db)
  unfolding add_virtual_subscription
  add_virtual_subscription-some h p e db at_var there =
      rw (at_var, add_virtual_subscription)
        (and_then-ok _
          (deref-some p e (record db { next_id = (make_subscription_id db.next_id).1 }) there))

  pub with_added-Entered :
      (h : H) (p : ℕ) (e : Entry H) (db : SubscriptionDb H)
      → Entered db p e
      → Entered (with_added h p e db) p (record e { virtual_subs = added h e db })
  with_added-Entered h p e db x =
      relisted-Entered db p e (added h e db) (assign (upcoming db) p db.virtual_subs_id_map)
        (make_subscription_id db.next_id).1 x

  pub with_added-Sound :
      (h : H) (p : ℕ) (e : Entry H) (db : SubscriptionDb H)
      → Sound db
      → Entered db p e
      → find (upcoming db) db.virtual_subs_id_map ≡ none
      → Sound (with_added h p e db)
  with_added-Sound h p e db s x new =
      appended-Sound db p e (record { id = upcoming db; handler = h })
        (make_subscription_id db.next_id).1 s x new

  pub create_entry-new :
      (v : VariableId) (m : ℕ) (h : H) (db : SubscriptionDb H)
      → find v db.var_id_map ≡ none
      → find m db.master_subs_id_map ≡ none
      → create_entry v m h db
        ≡ (ok (upcoming db), with_added h db.next_entry (new_entry v m) (opened v m db))
  unfolding create_entry variable_defined master_subscription_defined is_defined init_entry
  create_entry-new v m h db new_var new_master =
      let x = opened-Entered v m db in
      rw (new_var, new_master)
        (add_virtual_subscription-some h db.next_entry (new_entry v m) (opened v m db) x.variable
          x.there)

  pub master_of_variable-some :
      (p : ℕ) (e : Entry H) (db : SubscriptionDb H)
      → Entered db p e
      → master_of_variable e.var_id db ≡ (ok e.master_subs_id, db)
  unfolding master_of_variable
  master_of_variable-some p e db x =
      and_then-ok _ (get_entry_by_var-some e.var_id p db x.variable)
      ∙ and_then-ok _ (deref-some p e db x.there)

  pub master_of_virtual-some :
      (id p : ℕ) (e : Entry H) (db : SubscriptionDb H)
      → Entered db p e
      → find id db.virtual_subs_id_map ≡ some p
      → master_of_virtual id db ≡ (ok e.master_subs_id, db)
  unfolding master_of_virtual
  master_of_virtual-some id p e db x at_id =
      and_then-ok _ (get_entry_by_virtual-some id p db at_id)
      ∙ and_then-ok _ (deref-some p e db x.there)

  -- In a sound database, to create the entry of a variable and a master subscription that it has not, under an identifier
  -- that no virtual subscription has, returns that identifier; the variable and the identifier then lead to
  -- the master subscription, its handlers are the given one, an entry for the variable, or for the master
  -- subscription, cannot be created again, and the database is sound.
  pub create_entry_lem :
      (v w : VariableId) (m n : ℕ) (h g : H) (db : SubscriptionDb H)
      → Sound db
      → find v db.var_id_map ≡ none
      → find m db.master_subs_id_map ≡ none
      → find (upcoming db) db.virtual_subs_id_map ≡ none
      → w ≢ v
      → find w db.var_id_map ≡ none
      → (db' : SubscriptionDb H) × (create_entry v m h db ≡ (ok (upcoming db), db'))
        × (master_of_variable v db' ≡ (ok m, db'))
        × (master_of_virtual (upcoming db) db' ≡ (ok m, db'))
        × (handlers_of m db' ≡ (ok (v, record { id = upcoming db; handler = h } ∷ []), db'))
        × (create_entry v n g db' ≡ (throws (variable_already_exists_error v), db'))
        × (create_entry w m g db' ≡ (throws (master_subscription_already_exists_error m), db'))
        × Sound db'
  unfolding create_entry variable_defined master_subscription_defined is_defined
  create_entry_lem v w m n h g db s new_var new_master new_id differs nowhere =
      let p = db.next_entry in
      let e = new_entry v m in
      let db1 = opened v m db in
      let x1 = opened-Entered v m db in
      let db' = with_added h p e db1 in
      let x = with_added-Entered h p e db1 x1 in
      let still : find w db'.var_id_map ≡ none =
        find-assign_other v w p db.var_id_map differs ∙ nowhere in
      (
        db',
        create_entry-new v m h db new_var new_master,
        master_of_variable-some p (record e { virtual_subs = added h e db1 }) db' x,
        master_of_virtual-some (upcoming db) p (record e { virtual_subs = added h e db1 }) db' x
            (find-assign_same (upcoming db) p db.virtual_subs_id_map),
        handlers_of-some m p (record e { virtual_subs = added h e db1 }) db' x.master x.there
            x.variable,
        rw x.variable refl,
        rw (still, x.master) refl,
        with_added-Sound h p e db1 (opened-Sound v m db s new_var new_master) x1 new_id,
      )

  invoke_handlers_some :
      {S : Type 0} (call : H → VariableId → VariableValue → Action DbException S (Unit {0})) (p : ℕ)
      (e : Entry H) (a : VariableValue) (t : S) (db : SubscriptionDb H)
      → Entered db p e
      → invoke_handlers call e.master_subs_id a db t ≡ invoke_each call e.var_id a e.virtual_subs t
  unfolding invoke_handlers
  invoke_handlers_some call p e a t db x =
      rw (handlers_of-some e.master_subs_id p e db x.master x.there x.variable, invoke_handlers)
        refl

  -- To run the handlers of a list and then one more.
  invoke_each-append :
      {S : Type 0} (call : H → VariableId → VariableValue → Action DbException S (Unit {0}))
      (v : VariableId) (a : VariableValue) (ss : List (Virtual H)) (s : Virtual H) (t : S)
      → invoke_each call v a (ss ++ (s ∷ [])) t
        ≡ and_then (invoke_each call v a ss t) (λ _. call s.handler v a)
  unfolding invoke_each
  invoke_each-append call v a [] s t = and_then-return (call s.handler v a t)
  invoke_each-append call v a (r ∷ ss) s t =
      ap (and_then (call r.handler v a t))
        (fun_ext λ _. fun_ext λ u. invoke_each-append call v a ss s u)
      ∙ sym (
          and_then-and_then (call r.handler v a t) (λ _. invoke_each call v a ss)
            (λ _. call s.handler v a))

  -- In a sound database, another virtual subscription of a variable, under an identifier that no virtual subscription
  -- has, leads to the master subscription of the variable, the database stays sound, and an update of that
  -- master subscription runs the handlers it ran before and then, unless one of those does not return,
  -- the new one.
  pub add_virtual_subscription_lem :
      {S : Type 0} (call : H → VariableId → VariableValue → Action DbException S (Unit {0})) (h : H)
      (p : ℕ) (e : Entry H) (a : VariableValue) (t : S) (db : SubscriptionDb H)
      → Sound db
      → Entered db p e
      → find (upcoming db) db.virtual_subs_id_map ≡ none
      → (db' : SubscriptionDb H) × (add_virtual_subscription e.var_id h db
          ≡ (ok (upcoming db), db'))
        × (master_of_virtual (upcoming db) db' ≡ (ok e.master_subs_id, db'))
        × (invoke_handlers call e.master_subs_id a db' t
            ≡ and_then (invoke_handlers call e.master_subs_id a db t) (λ _. call h e.var_id a))
        × Sound db'
  add_virtual_subscription_lem call h p e a t db s x new =
      let db' = with_added h p e db in
      let e' = record e { virtual_subs = added h e db } in
      let x' = with_added-Entered h p e db x in
      (
        db',
        add_virtual_subscription-some h p e db x.variable x.there,
        master_of_virtual-some (upcoming db) p e' db' x'
            (find-assign_same (upcoming db) p db.virtual_subs_id_map),
        invoke_handlers_some call p e' a t db' x'
            ∙ invoke_each-append call e.var_id a e.virtual_subs
                (record { id = upcoming db; handler = h }) t
            ∙ ap (λ r. and_then r (λ _. call h e.var_id a))
                (sym (invoke_handlers_some call p e a t db x)),
        with_added-Sound h p e db s x new,
      )
