-- ===== src/Client/SubscriptionDb/Calls.antt =====
-- The calls that change a `subscription_db`, and what holds after any of them.
use open_airbus_cockpit.Prelude.{
  ℕ, ◌%◌, ◌^◌, ◌≡◌, ◌≢◌, refl, sym, ap, ◌∙◌, inl, inr, true, false, ◌==◌, Bool-cases, Option-cases,
  none, ok, throws, undefined, length, Outcome, and_then, and_then-ok, and_then-throws, subst, ◌>>◌,
  return,
}
use open_airbus_cockpit.Prelude.Maps.{find, same_number}
use open_airbus_cockpit.Var.Types.{VariableId, same_variable}
use open_airbus_cockpit.Client.SubscriptionDb.{
  DbException, variable_already_exists_error, master_subscription_already_exists_error,
  no_such_variable_error, no_such_virtual_subscription_error, SubscriptionDb, DbMethod, is_defined,
  variable_defined, master_subscription_defined, get_entry_by_var, get_entry_by_virtual,
  add_virtual_subscription, create_entry, remove_if, remove_entry, remove_virtual_subscription,
}
use open_airbus_cockpit.Client.SubscriptionDb.Sound.{
  Entered, Sound, relisted-Entered, removed-Sound,
}
use open_airbus_cockpit.Client.SubscriptionDb.Entries.{
  new_entry, opened, opened-Entered, opened-Sound,
}
use open_airbus_cockpit.Client.SubscriptionDb.Lookups.{
  deref-some, get_entry_by_var-none, get_entry_by_virtual-some, get_entry_by_virtual-none,
}
use open_airbus_cockpit.Client.SubscriptionDb.Removals.{
  without, remove_virtual_lem, remove_entry_lem,
}
use open_airbus_cockpit.Client.SubscriptionDb.Additions.{
  upcoming, with_added, with_added-Sound, add_virtual_subscription-some, create_entry-new,
}

pub data Call (H : Type 0) : Type 0 where
  create : VariableId → ℕ → H → Call H
  add : VariableId → H → Call H
  remove_subscription : ℕ → Call H
  remove_variable : VariableId → Call H

module _ {H : Type 0} where
  unfoldable pub call : Call H → DbMethod H (Unit {0})
  call (create v m h) = create_entry v m h >> return tt
  call (add v h) = add_virtual_subscription v h >> return tt
  call (remove_subscription id) = remove_virtual_subscription id >> return tt
  call (remove_variable v) = remove_entry v

  -- The call is defined, and the database after it is sound.
  abbrev pub Fine : Outcome DbException (Unit {0}) × SubscriptionDb H → Type 0
  Fine r = (r.0 ≢ undefined) × Sound r.1

  returns_Fine :
      {A : Type 0} (x : Outcome DbException A × SubscriptionDb H) (a : A) (db : SubscriptionDb H)
      → x ≡ (ok a, db)
      → Sound db
      → Fine (and_then x (λ _. return tt))
  returns_Fine x a db e s = rw e ((λ h. absurd cc), s)

  throws_Fine :
      {A : Type 0} (x : Outcome DbException A × SubscriptionDb H) (a : DbException)
      (db : SubscriptionDb H)
      → x ≡ (throws a, db)
      → Sound db
      → Fine (and_then x (λ _. return tt))
  throws_Fine x a db e s = rw e ((λ h. absurd cc), s)

  create-Fine :
      (v : VariableId) (m : ℕ) (h : H) (db : SubscriptionDb H)
      → Sound db
      → find (upcoming db) db.virtual_subs_id_map ≡ none
      → Fine (call (create v m h) db)
  unfolding call create_entry variable_defined master_subscription_defined is_defined
  create-Fine v m h db s new = elim (Option-cases (find v db.var_id_map)) [
    | inr (p, e) ↦
        throws_Fine (create_entry v m h db) (variable_already_exists_error v) db
          (rw (e, create_entry) refl) s
    | inl new_var ↦ elim (Option-cases (find m db.master_subs_id_map)) [
      | inr (p, e) ↦
          throws_Fine (create_entry v m h db) (master_subscription_already_exists_error m) db
            (rw (new_var, e, create_entry) refl) s
      | inl new_master ↦
          returns_Fine (create_entry v m h db) (upcoming db) _
            (create_entry-new v m h db new_var new_master)
            (with_added-Sound h db.next_entry (new_entry v m) (opened v m db)
              (opened-Sound v m db s new_var new_master) (opened-Entered v m db) new)
    ]
  ]

  add-Fine :
      (v : VariableId) (h : H) (db : SubscriptionDb H)
      → Sound db
      → find (upcoming db) db.virtual_subs_id_map ≡ none
      → Fine (call (add v h) db)
  unfolding call add_virtual_subscription
  add-Fine v h db s new = elim (Option-cases (find v db.var_id_map)) [
    | inl e ↦
        throws_Fine (add_virtual_subscription v h db) (no_such_variable_error v) db
          (rw (e, add_virtual_subscription) refl) s
    | inr (p, at_var) ↦
        let (e, x, same) = s.variables v p at_var in
        let run : add_virtual_subscription v h db ≡ (ok (upcoming db), with_added h p e db) =
          ap (λ w. add_virtual_subscription w h db) (sym same)
          ∙ add_virtual_subscription-some h p e db x.variable x.there in
        returns_Fine (add_virtual_subscription v h db) (upcoming db) (with_added h p e db) run
          (with_added-Sound h p e db s x new)
  ]

  remove_variable-Fine :
      (v : VariableId) (db : SubscriptionDb H) → Sound db → Fine (remove_entry v db)
  unfolding remove_entry get_entry_by_var
  remove_variable-Fine v db s = elim (Option-cases (find v db.var_id_map)) [
    | inl e ↦
        let run : remove_entry v db ≡ (throws (no_such_variable_error v), db) =
          and_then-throws _ (get_entry_by_var-none v db e) in
        rw run ((λ h. absurd cc), s)
    | inr (p, at_var) ↦
        let (e, x, same) = s.variables v p at_var in
        let (db', run, after) = remove_entry_lem p e db s x in
        subst (λ w. Fine (remove_entry w db)) same (rw run ((λ h. absurd cc), after.sound))
  ]

  remove_subscription-Fine :
      (id : ℕ) (db : SubscriptionDb H) → Sound db → Fine (call (remove_subscription id) db)
  unfolding call remove_virtual_subscription get_entry_by_virtual
  remove_subscription-Fine id db s = elim (Option-cases (find id db.virtual_subs_id_map)) [
    | inl e ↦
        throws_Fine (remove_virtual_subscription id db) (no_such_virtual_subscription_error id) db
          (and_then-throws _ (get_entry_by_virtual-none id db e)) s
    | inr (p, at_id) ↦
        let (e, x, has) = s.virtuals id p at_id in
        let db1 = without id p e db in
        let rest = record e { virtual_subs = remove_if id e.virtual_subs } in
        let x1 : Entered db1 p rest =
          relisted-Entered db p e rest.virtual_subs db1.virtual_subs_id_map db.next_id x in
        let s1 : Sound db1 = removed-Sound db p e id s x at_id in
        let n = length (remove_if id e.virtual_subs) % 2 ^ 32 in
        let start =
          and_then-ok _ (get_entry_by_virtual-some id p db at_id)
          ∙ and_then-ok _ (remove_virtual_lem id p e db at_id x.there) in
        elim (Bool-cases (n == 0)) [
          | inr more ↦
              returns_Fine (remove_virtual_subscription id db) false db1 (start ∙ rw more refl) s1
          | inl last ↦
              let (db', run, after) = remove_entry_lem p rest db1 s1 x1 in
              returns_Fine (remove_virtual_subscription id db) true db'
                (start
                  ∙ rw last (and_then-ok _ (deref-some p rest db1 x1.there) ∙ and_then-ok _ run))
                after.sound
        ]
  ]

  -- Every call, also one that throws, keeps a database sound and never follows a pointer that leads nowhere, where the
  -- identifier that a new subscription would get is not in use.
  pub call-Sound :
      (c : Call H) (db : SubscriptionDb H)
      → Sound db
      → find (upcoming db) db.virtual_subs_id_map ≡ none
      → ((call c db).0 ≢ undefined) × Sound (call c db).1
  unfolding call
  call-Sound (create v m h) db s new = create-Fine v m h db s new
  call-Sound (add v h) db s new = add-Fine v h db s new
  call-Sound (remove_subscription id) db s new = remove_subscription-Fine id db s
  call-Sound (remove_variable v) db s new = remove_variable-Fine v db s
