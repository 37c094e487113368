-- ===== src/Client/SubscriptionDb/Lookups.antt =====
-- What the lookups of `subscription_db` come to when the maps lead somewhere.
use open_airbus_cockpit.Prelude.{
  ℕ, true, false, ◌≡◌, refl, ◌∙◌, none, some, ok, throws, and_then-ok,
}
use open_airbus_cockpit.Prelude.Maps.{find, same_number}
use open_airbus_cockpit.Var.Types.{VariableId, same_variable}
use open_airbus_cockpit.Client.SubscriptionDb.{
  no_such_variable_error, no_such_virtual_subscription_error, Entry, SubscriptionDb, is_defined,
  variable_defined, entry_defined, deref, get_entry_by_var, get_entry_by_master,
  get_entry_by_virtual, get_virtual_subscriptions, handlers_of,
}

module _ {H : Type 0} where
  pub deref-some :
      (p : ℕ) (e : Entry H) (db : SubscriptionDb H)
      → find p db.entries ≡ some e
      → deref p db ≡ (ok e, db)
  deref-some p e db h = rw (h, deref) refl

  pub get_entry_by_var-some :
      (v : VariableId) (p : ℕ) (db : SubscriptionDb H)
      → find v db.var_id_map ≡ some p
      → get_entry_by_var v db ≡ (ok p, db)
  unfolding get_entry_by_var
  get_entry_by_var-some v p db h = rw (h, get_entry_by_var) refl

  pub get_entry_by_master-some :
      (m p : ℕ) (db : SubscriptionDb H)
      → find m db.master_subs_id_map ≡ some p
      → get_entry_by_master m db ≡ (ok p, db)
  unfolding get_entry_by_master
  get_entry_by_master-some m p db h = rw (h, get_entry_by_master) refl

  pub get_entry_by_virtual-some :
      (id p : ℕ) (db : SubscriptionDb H)
      → find id db.virtual_subs_id_map ≡ some p
      → get_entry_by_virtual id db ≡ (ok p, db)
  unfolding get_entry_by_virtual
  get_entry_by_virtual-some id p db h = rw (h, get_entry_by_virtual) refl

  pub get_entry_by_virtual-none :
      (id : ℕ) (db : SubscriptionDb H)
      → find id db.virtual_subs_id_map ≡ none
      → get_entry_by_virtual id db ≡ (throws (no_such_virtual_subscription_error id), db)
  unfolding get_entry_by_virtual
  get_entry_by_virtual-none id db h = rw (h, get_entry_by_virtual) refl

  pub get_entry_by_var-none :
      (v : VariableId) (db : SubscriptionDb H)
      → find v db.var_id_map ≡ none
      → get_entry_by_var v db ≡ (throws (no_such_variable_error v), db)
  unfolding get_entry_by_var
  get_entry_by_var-none v db h = rw (h, get_entry_by_var) refl

  pub get_virtual_subscriptions-some :
      (v : VariableId) (p : ℕ) (e : Entry H) (db : SubscriptionDb H)
      → find v db.var_id_map ≡ some p
      → find p db.entries ≡ some e
      → get_virtual_subscriptions v db ≡ (ok e.virtual_subs, db)
  unfolding get_virtual_subscriptions
  get_virtual_subscriptions-some v p e db h there =
      and_then-ok _ (get_entry_by_var-some v p db h) ∙ and_then-ok _ (deref-some p e db there)

  pub handlers_of-some :
      (m p : ℕ) (e : Entry H) (db : SubscriptionDb H)
      → find m db.master_subs_id_map ≡ some p
      → find p db.entries ≡ some e
      → find e.var_id db.var_id_map ≡ some p
      → handlers_of m db ≡ (ok (e.var_id, e.virtual_subs), db)
  unfolding handlers_of
  handlers_of-some m p e db h there v =
      and_then-ok _ (get_entry_by_master-some m p db h)
      ∙ and_then-ok _ (deref-some p e db there)
      ∙ and_then-ok _ (get_virtual_subscriptions-some e.var_id p e db v there)

  pub entry_defined-none :
      (v : VariableId) (db : SubscriptionDb H)
      → find v db.var_id_map ≡ none
      → entry_defined v db ≡ false
  unfolding entry_defined variable_defined is_defined
  entry_defined-none v db h = rw h refl

  pub entry_defined-some :
      (v : VariableId) (p : ℕ) (db : SubscriptionDb H)
      → find v db.var_id_map ≡ some p
      → entry_defined v db ≡ true
  unfolding entry_defined variable_defined is_defined
  entry_defined-some v p db h = rw h refl
