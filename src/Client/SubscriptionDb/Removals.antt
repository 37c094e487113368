-- ===== src/Client/SubscriptionDb/Removals.antt =====
-- What the removals of `subscription_db` come to.
use open_airbus_cockpit.Prelude.{
  ℕ, ◌%◌, ◌^◌, ◌≡◌, refl, ap, subst, ◌∙◌, List, [], ◌∷◌, none, some, ok, length, and_then-ok,
}
use open_airbus_cockpit.Prelude.Maps.{find, erase, same_number, find-erase_same, find-assign_same}
use open_airbus_cockpit.Var.Types.{same_variable}
use open_airbus_cockpit.Client.SubscriptionDb.{
  Virtual, Entry, SubscriptionDb, get_entry_by_var, get_entry_by_virtual, get_virtual_subscriptions,
  remove_if, remove_virtual, remove_each, remove_entry,
}
use open_airbus_cockpit.Client.SubscriptionDb.Ids.{Held, Distinct, remove_if_first}
use open_airbus_cockpit.Client.SubscriptionDb.Sound.{
  Entered, Sound, relisted, relisted-Entered, removed-Sound,
}
use open_airbus_cockpit.Client.SubscriptionDb.Entries.{dropped, dropped-Sound}
use open_airbus_cockpit.Client.SubscriptionDb.Lookups.{
  deref-some, get_entry_by_var-some, get_entry_by_virtual-some, get_virtual_subscriptions-some,
}

module _ {H : Type 0} where
  abbrev pub without : ℕ → ℕ → Entry H → SubscriptionDb H → SubscriptionDb H
  without id p e db =
      relisted db p e (remove_if id e.virtual_subs) (erase id db.virtual_subs_id_map) db.next_id

  pub remove_virtual_lem :
      (id p : ℕ) (e : Entry H) (db : SubscriptionDb H)
      → find id db.virtual_subs_id_map ≡ some p
      → find p db.entries ≡ some e
      → remove_virtual id db
        ≡ (ok (length (remove_if id e.virtual_subs) % 2 ^ 32), without id p e db)
  unfolding remove_virtual get_entry_by_virtual
  remove_virtual_lem id p e db at_id there =
      let now =
        find-assign_same p (record e { virtual_subs = remove_if id e.virtual_subs }) db.entries in
      and_then-ok _ (get_entry_by_virtual-some id p db at_id)
      ∙ and_then-ok _ (deref-some p e db there)
      ∙ and_then-ok _ (
          deref-some p (record e { virtual_subs = remove_if id e.virtual_subs }) (without id p e db)
            now)

  -- The database after all the subscriptions of an entry are removed.
  record Emptied (p : ℕ) (e : Entry H) (db db' : SubscriptionDb H) : Type 0 where
    sound : Sound db'
    entered : Entered db' p (record e { virtual_subs = [] })
    variables : db'.var_id_map ≡ db.var_id_map
    masters : db'.master_subs_id_map ≡ db.master_subs_id_map

  remove_each_lem :
      (ss : List (Virtual H)) (p : ℕ) (e : Entry H) (db : SubscriptionDb H)
      → Sound db
      → Entered db p e
      → e.virtual_subs ≡ ss
      → (db' : SubscriptionDb H) × (remove_each ss db ≡ (ok tt, db')) × Emptied p e db db'
  unfolding remove_each
  remove_each_lem [] p e db s x h =
      (db, refl, record { sound = s; entered = rw (← h) x; variables = refl; masters = refl })
  remove_each_lem (v ∷ ss) p e db s x h =
      let both : Held p db.virtual_subs_id_map (v ∷ ss) × Distinct (v ∷ ss) =
        subst (λ l. Held p db.virtual_subs_id_map l × Distinct l) h (s.listed p e x) in
      let (db', run, after) =
        remove_each_lem ss p (record e { virtual_subs = remove_if v.id e.virtual_subs })
          (without v.id p e db) (removed-Sound db p e v.id s x both.0.0)
          (relisted-Entered db p e (remove_if v.id e.virtual_subs)
            (erase v.id db.virtual_subs_id_map) db.next_id x)
          (ap (remove_if v.id) h ∙ remove_if_first v ss both.1) in
      (
        db',
        rw (remove_virtual_lem v.id p e db both.0.0 x.there) run,
        record {
          sound = after.sound;
          entered = after.entered;
          variables = after.variables;
          masters = after.masters;
        },
      )

  -- The database after an entry is removed: neither its variable nor its master leads anywhere.
  pub record Forgotten (e : Entry H) (db : SubscriptionDb H) : Type 0 where
    pub sound : Sound db
    pub variable : find e.var_id db.var_id_map ≡ none
    pub master : find e.master_subs_id db.master_subs_id_map ≡ none

  pub remove_entry_lem :
      (p : ℕ) (e : Entry H) (db : SubscriptionDb H)
      → Sound db
      → Entered db p e
      → (db' : SubscriptionDb H) × (remove_entry e.var_id db ≡ (ok tt, db')) × Forgotten e db'
  unfolding remove_entry get_entry_by_var get_virtual_subscriptions
  remove_entry_lem p e db s x =
      let (db', run, after) = remove_each_lem e.virtual_subs p e db s x refl in
      (
        dropped e db',
        and_then-ok _ (get_entry_by_var-some e.var_id p db x.variable)
            ∙ and_then-ok _ (get_virtual_subscriptions-some e.var_id p e db x.variable x.there)
            ∙ and_then-ok _ run
            ∙ and_then-ok _ (deref-some p (record e { virtual_subs = [] }) db' after.entered.there),
        record {
          sound =
              dropped-Sound db' p (record e { virtual_subs = [] }) after.sound after.entered refl;
          variable = find-erase_same e.var_id db'.var_id_map;
          master = find-erase_same e.master_subs_id db'.master_subs_id_map;
        },
      )
