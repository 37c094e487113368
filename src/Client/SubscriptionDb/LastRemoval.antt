-- ===== src/Client/SubscriptionDb/LastRemoval.antt =====
-- When `remove_virtual_subscription` of `subscription_db` removes the entry too.
use open_airbus_cockpit.Prelude.{
  ℕ, ◌<◌, ◌%◌, ◌^◌, ◌≡◌, ◌≢◌, refl, sym, ap, ◌∙◌, inl, inr, Bool, true, false, not, ◌==◌, ==_iff,
  Bool-cases, List, [], ◌∷◌, none, some, ok, length, and_then-ok, arith,
}
use open_airbus_cockpit.Prelude.Maps.{find, erase, same_number, find-erase_same}
use open_airbus_cockpit.Var.Types.{same_variable}
use open_airbus_cockpit.Client.SubscriptionDb.{
  Virtual, Entry, SubscriptionDb, is_defined, variable_defined, master_subscription_defined,
  remove_if, remove_each, remove_entry, remove_virtual_subscription, handlers_of,
}
use open_airbus_cockpit.Client.SubscriptionDb.Sound.{
  Entered, Sound, relisted-Entered, relisted-Entered_other, removed-Sound,
}
use open_airbus_cockpit.Client.SubscriptionDb.Entries.{dropped, dropped-Sound, Entered-dropped}
use open_airbus_cockpit.Client.SubscriptionDb.Lookups.{
  deref-some, get_entry_by_var-some, get_entry_by_virtual-some, get_virtual_subscriptions-some,
  handlers_of-some,
}
use open_airbus_cockpit.Client.SubscriptionDb.Removals.{without, remove_virtual_lem}

module _ {H : Type 0} where
  -- The entry of a subscription.
  pub entry_of :
      (id p : ℕ) (e : Entry H) (db : SubscriptionDb H)
      → Sound db
      → find id db.virtual_subs_id_map ≡ some p
      → find p db.entries ≡ some e
      → Entered db p e
  entry_of id p e db s at_id there =
      let (f, x, has) = s.virtuals id p at_id in
      let same : f ≡ e = let h : some f ≡ some e = sym x.there ∙ there in cc in rw (← same) x

  remove_entry-empty :
      (p : ℕ) (e : Entry H) (db : SubscriptionDb H)
      → Entered db p e
      → e.virtual_subs ≡ []
      → remove_entry e.var_id db ≡ (ok tt, dropped e db)
  unfolding remove_entry remove_each
  remove_entry-empty p e db x empty =
      and_then-ok _ (get_entry_by_var-some e.var_id p db x.variable)
      ∙ and_then-ok _ (get_virtual_subscriptions-some e.var_id p e db x.variable x.there)
      ∙ and_then-ok _ (ap (λ l. remove_each l db) empty)
      ∙ and_then-ok _ (deref-some p e db x.there)

  -- What a removal from the entry at `p` of a database leaves of that entry and of the others.
  pub record Left (id p : ℕ) (e : Entry H) (old : SubscriptionDb H) (b : Bool)
      (db : SubscriptionDb H) : Type 0 where
    pub sound : Sound db
    pub last : b ≡ (length (remove_if id e.virtual_subs) == 0)
    pub variable : variable_defined e.var_id db ≡ not b
    pub master : master_subscription_defined e.master_subs_id db ≡ not b
    pub gone : find id db.virtual_subs_id_map ≡ none
    pub other :
        (q : ℕ) (f : Entry H)
        → q ≢ p
        → Entered old q f
        → handlers_of f.master_subs_id db ≡ (ok (f.var_id, f.virtual_subs), db)

  module _ (id p : ℕ) (e : Entry H) (db : SubscriptionDb H) (s : Sound db)
      (at_id : find id db.virtual_subs_id_map ≡ some p) (x : Entered db p e) where
    rest : Entry H
    rest = record e { virtual_subs = remove_if id e.virtual_subs }

    rest-Entered : Entered (without id p e db) p rest
    unfolding rest
    rest-Entered =
        relisted-Entered db p e (remove_if id e.virtual_subs) (erase id db.virtual_subs_id_map)
          db.next_id x

    other-Entered : (q : ℕ) (f : Entry H) → q ≢ p → Entered db q f → Entered (without id p e db) q f
    other-Entered q f apart y =
        relisted-Entered_other db p e (remove_if id e.virtual_subs)
          (erase id db.virtual_subs_id_map) db.next_id q f apart y

    not_last : (n : ℕ) → (n == 0) ≡ false → n < 2 ^ 32 → (n % 2 ^ 32 == 0) ≡ false
    not_last n h l = let g : n % 2 ^ 32 ≡ n = omega arith in rw g h

    nothing_left : (l : List (Virtual H)) → (length l == 0) ≡ true → l ≡ []
    nothing_left [] h = refl
    nothing_left (v ∷ l) h = absurd (let g = (==_iff (length (v ∷ l)) 0).0 h in omega arith)

    kept :
        (length (remove_if id e.virtual_subs) == 0) ≡ false
        → length (remove_if id e.virtual_subs) < 2 ^ 32
        → (remove_virtual_subscription id db ≡ (ok false, without id p e db))
          × Left id p e db false (without id p e db)
    unfolding remove_virtual_subscription rest variable_defined master_subscription_defined
        is_defined
    kept some_left small = (
      and_then-ok _ (get_entry_by_virtual-some id p db at_id)
          ∙ and_then-ok _ (remove_virtual_lem id p e db at_id x.there)
          ∙ rw (not_last (length (remove_if id e.virtual_subs)) some_left small) refl,
      record {
        sound = removed-Sound db p e id s x at_id;
        last = sym some_left;
        variable = rw x.variable refl;
        master = rw x.master refl;
        gone = find-erase_same id db.virtual_subs_id_map;
        other = λ q f apart y.
            let z = other-Entered q f apart y in
            handlers_of-some f.master_subs_id q f (without id p e db) z.master z.there z.variable;
      },
    )

    ended :
        (length (remove_if id e.virtual_subs) == 0) ≡ true
        → (remove_virtual_subscription id db ≡ (ok true, dropped rest (without id p e db)))
          × Left id p e db true (dropped rest (without id p e db))
    unfolding remove_virtual_subscription rest variable_defined master_subscription_defined
        is_defined
    ended none_left =
        let empty = nothing_left (remove_if id e.virtual_subs) none_left in
        (
          and_then-ok _ (get_entry_by_virtual-some id p db at_id)
              ∙ and_then-ok _ (remove_virtual_lem id p e db at_id x.there)
              ∙ rw (ap length empty) (
                  and_then-ok _ (deref-some p rest (without id p e db) rest-Entered.there)
                  ∙ and_then-ok _
                      (remove_entry-empty p rest (without id p e db) rest-Entered empty)),
          record {
            sound =
                dropped-Sound (without id p e db) p rest (removed-Sound db p e id s x at_id)
                  rest-Entered empty;
            last = sym none_left;
            variable = rw (find-erase_same e.var_id db.var_id_map) refl;
            master = rw (find-erase_same e.master_subs_id db.master_subs_id_map) refl;
            gone = find-erase_same id db.virtual_subs_id_map;
            other = λ q f apart y.
                let there =
                  Entered-dropped (without id p e db) p rest (removed-Sound db p e id s x at_id)
                    rest-Entered q f apart (other-Entered q f apart y) in
                handlers_of-some f.master_subs_id q f (dropped rest (without id p e db))
                  there.master there.there there.variable;
          },
        )

  -- In a sound database, to remove a virtual subscription of an entry with at most 2^32 of them succeeds, and returns whether
  -- it was the last of its entry: exactly then the variable and the master subscription are not defined
  -- any more. The identifier leads nowhere after, the handlers of any other entry are the ones they were,
  -- and the database is sound.
  pub remove_virtual_subscription_lem :
      (id p : ℕ) (e : Entry H) (db : SubscriptionDb H)
      → Sound db
      → find id db.virtual_subs_id_map ≡ some p
      → Entered db p e
      → length (remove_if id e.virtual_subs) < 2 ^ 32
      → (b : Bool) × (db' : SubscriptionDb H) × (remove_virtual_subscription id db ≡ (ok b, db'))
        × Left id p e db b db'
  unfolding rest
  remove_virtual_subscription_lem id p e db s at_id x small =
      elim (Bool-cases (length (remove_if id e.virtual_subs) == 0)) [
        | inl none_left ↦
            let (run, left) = ended id p e db s at_id x none_left in
            (true, dropped (rest id p e db s at_id x) (without id p e db), run, left)
        | inr some_left ↦
            let (run, left) = kept id p e db s at_id x some_left small in
            (false, without id p e db, run, left)
      ]
