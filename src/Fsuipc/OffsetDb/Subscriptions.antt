-- ===== src/Fsuipc/OffsetDb/Subscriptions.antt =====
-- What the subscriptions of `fsuipc_offset_db` are after one is made or removed.
use open_airbus_cockpit.Prelude.{
  ℕ, ◌==◌, ◌≡◌, ◌≢◌, refl, sym, ap, ◌∙◌, inl, inr, if◌then◌else◌, true, false, Bool-cases,
  Option-cases, ==_self, ==_other, List-cases, ==_iff, List, [], ◌∷◌, ◌++◌, none, some, ok, throws,
}
use open_airbus_cockpit.Prelude.Maps.{
  Map, find, assign, erase, find-nil, find-behind, find-assign_same, find-assign_other,
}
use open_airbus_cockpit.Fsuipc.Offset.{Offset, same_offset, db_no_such_subscription_error}
use open_airbus_cockpit.Prelude.Words.{add32}
use open_airbus_cockpit.Var.Types.{VariableId}
use open_airbus_cockpit.Subscription.{make_subscription_id}
use open_airbus_cockpit.Fsuipc.Names.{Boost, to_fsuipc_offset}
use open_airbus_cockpit.Fsuipc.OffsetDb.{
  handlers_at, insert_known_offset, insert_subscription, create_subscription,
  get_subscriptions_for_offset, OffsetDb, SubscriptionMeta, Handlers, remove_known_offset,
  remove_if, remove_each, remove_subscription, has_subscription, offset_with,
  get_offset_for_subscription,
}

-- A predicate on the entries of a map.
abbrev pub All : {A : Type 0} → (Offset → A → Type 0) → Map Offset A → Type 0
All P [] = Unit {0}
All P ((o, a) ∷ m) = P o a × All P m

-- Another order of the same entries: each key leads where it did, and there is no entry that was not there.
pub record IsReordering {A : Type 0} (reorder : Map Offset A → Map Offset A) : Type 1 where
  pub find-same : (o : Offset) (m : Map Offset A) → find o (reorder m) ≡ find o m
  pub no_other : (P : Offset → A → Type 0) (m : Map Offset A) → All P m → All P (reorder m)

module _ {H : Type 0} where
  has_none-remove_if :
      (id : ℕ) (l : List (SubscriptionMeta H)) → has_subscription id (remove_if id l) ≡ false
  unfolding has_subscription remove_if
  has_none-remove_if id [] = refl
  has_none-remove_if id (s ∷ ss) = elim (Bool-cases (s.subs_id == id)) [
    | inl e ↦ rw e (has_none-remove_if id ss)
    | inr e ↦ rw (e, e) (has_none-remove_if id ss)
  ]

  has_other-remove_if :
      (id other : ℕ) (l : List (SubscriptionMeta H))
      → other ≢ id
      → has_subscription other (remove_if id l) ≡ has_subscription other l
  unfolding has_subscription remove_if
  has_other-remove_if id other [] ne = refl
  has_other-remove_if id other (s ∷ ss) ne = elim (Bool-cases (s.subs_id == id)) [
    | inl e ↦
        rw (e, ==_other s.subs_id other (λ q. ne (sym q ∙ (==_iff s.subs_id id).0 e)))
          (has_other-remove_if id other ss ne)
    | inr e ↦
        rw e (ap (λ b. if s.subs_id == other then true else b) (has_other-remove_if id other ss ne))
  ]

  nothing_left :
      (id other : ℕ) (l : List (SubscriptionMeta H))
      → other ≢ id
      → remove_if id l ≡ []
      → has_subscription other l ≡ false
  unfolding has_subscription
  nothing_left id other l ne e =
      sym (has_other-remove_if id other l ne) ∙ ap (has_subscription other) e

  remove_each-emptied :
      (id : ℕ) (o : Offset) (subs : List (SubscriptionMeta H)) (m : Handlers H)
      (known : List Offset)
      → remove_if id subs ≡ []
      → remove_each id ((o, subs) ∷ m) known ≡ remove_each id m (remove_known_offset o known)
  unfolding remove_each
  remove_each-emptied id o subs m known e = rw (e, remove_each) refl

  remove_each-kept :
      (id : ℕ) (o : Offset) (subs : List (SubscriptionMeta H)) (m : Handlers H)
      (known : List Offset) (s : SubscriptionMeta H) (ss : List (SubscriptionMeta H))
      → remove_if id subs ≡ s ∷ ss
      → (remove_each id ((o, subs) ∷ m) known).0
        ≡ (o, remove_if id subs) ∷ (remove_each id m known).0
  unfolding remove_each
  remove_each-kept id o subs m known s ss e = rw (e, remove_each) refl

  offset_with-remove_each :
      (id : ℕ) (m : Handlers H) (known : List Offset)
      → offset_with id (remove_each id m known).0 ≡ none
  unfolding offset_with remove_each
  offset_with-remove_each id [] known = refl
  offset_with-remove_each id ((o, subs) ∷ m) known = elim (List-cases (remove_if id subs)) [
    | inl e ↦
        ap (λ r. offset_with id r.0) (remove_each-emptied id o subs m known e)
        ∙ offset_with-remove_each id m (remove_known_offset o known)
    | inr (s, ss, e) ↦
        ap (offset_with id) (remove_each-kept id o subs m known s ss e)
        ∙ ap (λ b. if b then some o else offset_with id (remove_each id m known).0)
            (has_none-remove_if id subs)
        ∙ offset_with-remove_each id m known
  ]

  other_with-remove_each :
      (id other : ℕ) (m : Handlers H) (known : List Offset)
      → other ≢ id
      → offset_with other (remove_each id m known).0 ≡ offset_with other m
  unfolding offset_with remove_each
  other_with-remove_each id other [] known ne = refl
  other_with-remove_each id other ((o, subs) ∷ m) known ne = elim (List-cases (remove_if id subs)) [
    | inl e ↦
        ap (λ r. offset_with other r.0) (remove_each-emptied id o subs m known e)
        ∙ other_with-remove_each id other m (remove_known_offset o known) ne
        ∙ ap (λ b. if b then some o else offset_with other m)
            (sym (nothing_left id other subs ne e))
    | inr (s, ss, e) ↦
        ap (offset_with other) (remove_each-kept id o subs m known s ss e)
        ∙ ap (λ b. if b then some o else offset_with other (remove_each id m known).0)
            (has_other-remove_if id other subs ne)
        ∙ ap (λ r. if has_subscription other subs then some o else r)
            (other_with-remove_each id other m known ne)
  ]

  -- When a subscription has been removed, asking for its offset throws; any other subscription has the offset
  -- that it had, or none as before.
  pub remove_subscription_lem :
      (id other : ℕ) (db : OffsetDb H)
      → (get_offset_for_subscription id (remove_subscription id db)
          ≡ throws (db_no_such_subscription_error id))
        × (other ≢ id
            → get_offset_for_subscription other (remove_subscription id db)
              ≡ get_offset_for_subscription other db)
  unfolding get_offset_for_subscription remove_subscription
  remove_subscription_lem id other db = (
    rw (offset_with-remove_each id db.offset_handlers db.known_offsets, get_offset_for_subscription)
        refl,
    λ ne.
        rw
          (
            other_with-remove_each id other db.offset_handlers db.known_offsets ne,
            get_offset_for_subscription,
          )
          refl,
  )

  has_subscription-append :
      (s : SubscriptionMeta H) (l : List (SubscriptionMeta H))
      → has_subscription s.subs_id (l ++ (s ∷ [])) ≡ true
  unfolding has_subscription
  has_subscription-append s [] = rw (==_self s.subs_id) refl
  has_subscription-append s (x ∷ xs) = elim (Bool-cases (x.subs_id == s.subs_id)) [
    | inl e ↦ rw e refl
    | inr e ↦ rw e (has_subscription-append s xs)
  ]

  -- An entry that does not have the subscription is not the one that is found.
  find_behind :
      (id : ℕ) (o p : Offset) (l subs : List (SubscriptionMeta H)) (m : Handlers H)
      → has_subscription id subs ≡ false
      → find o ((p, subs) ∷ m) ≡ some l
      → has_subscription id l ≡ true
      → find o m ≡ some l
  find_behind id o p l subs m lacks there has =
      find-behind o p subs l m there
        (λ e. let q : false ≡ true = sym lacks ∙ ap (has_subscription id) e ∙ has in absurd cc)

  -- Where each entry that has the subscription is at one offset, and what is found at that offset has it, the
  -- offset is found.
  only_at :
      (id : ℕ) (o : Offset) (l : List (SubscriptionMeta H)) (m : Handlers H)
      → All (λ p subs. has_subscription id subs ≡ true → p ≡ o) m
      → find o m ≡ some l
      → has_subscription id l ≡ true
      → offset_with id m ≡ some o
  unfolding offset_with
  only_at id o l [] all there has = let q : none ≡ some l = sym (find-nil o) ∙ there in absurd cc
  only_at id o l ((p, subs) ∷ m) (here, all) there has =
      elim (Bool-cases (has_subscription id subs)) [
        | inl e ↦ ap (λ b. if b then some p else offset_with id m) e ∙ ap some (here e)
        | inr e ↦
            ap (λ b. if b then some p else offset_with id m) e
            ∙ only_at id o l m all (find_behind id o p l subs m e there has) has
      ]

  -- An unused identifier is in no entry, and after an assignment only in the new one.
  unused_everywhere :
      (id : ℕ) (m : Handlers H)
      → offset_with id m ≡ none
      → All (λ p subs. has_subscription id subs ≡ false) m
  unfolding offset_with
  unused_everywhere id [] none_has = tt
  unused_everywhere id ((p, subs) ∷ m) none_has = elim (Bool-cases (has_subscription id subs)) [
    | inl e ↦
        let q : some p ≡ none =
          sym (ap (λ b. if b then some p else offset_with id m) e) ∙ none_has in
        absurd cc
    | inr e ↦ (
      e,
      unused_everywhere id m (sym (ap (λ b. if b then some p else offset_with id m) e) ∙ none_has),
    )
  ]

  still_unused :
      (id : ℕ) (o : Offset) (m : Handlers H)
      → All (λ p subs. has_subscription id subs ≡ false) m
      → All (λ p subs. has_subscription id subs ≡ true → p ≡ o) (erase o m)
  unfolding erase
  still_unused id o [] all = tt
  still_unused id o ((p, subs) ∷ m) (here, all) =
      elim (same_offset o p)
        as (λ d.
          All (λ q l. has_subscription id l ≡ true → q ≡ o)
            (elim d [ yes _ ↦ erase o m | no _ ↦ (p, subs) ∷ erase o m ])) [
              | yes _ ↦ still_unused id o m all
              | no _ ↦ (
                (λ has. let q : false ≡ true = sym here ∙ has in absurd cc),
                still_unused id o m all,
              )
            ]

  new_at :
      (id : ℕ) (o : Offset) (l : List (SubscriptionMeta H)) (m : Handlers H)
      → offset_with id m ≡ none
      → All (λ p subs. has_subscription id subs ≡ true → p ≡ o) (assign o l m)
  unfolding assign
  new_at id o l m unused = ((λ _. refl), still_unused id o m (unused_everywhere id m unused))

  -- Where asking for the offset throws, no entry has the subscription.
  none_with :
      (id : ℕ) (db : OffsetDb H)
      → get_offset_for_subscription id db ≡ throws (db_no_such_subscription_error id)
      → offset_with id db.offset_handlers ≡ none
  unfolding get_offset_for_subscription
  none_with id db q = elim (Option-cases (offset_with id db.offset_handlers)) [
    | inl e ↦ e
    | inr (o, e) ↦
        let r : get_offset_for_subscription id db ≡ ok o =
          rw (e, get_offset_for_subscription) refl in
        let d : throws (db_no_such_subscription_error id) ≡ ok o = sym q ∙ r in absurd cc
  ]

  -- A subscription to a variable whose name is that of an offset gets the next identifier, where no subscription of the
  -- database has that identifier, in whatever order the map is left and gone through. It is the last subscription of that
  -- offset, and the offset is the one that is found for its identifier; the subscriptions of other offsets
  -- are as before.
  pub create_subscription_lem :
      (boost : Boost) (reorder : Handlers H → Handlers H) (var_id : VariableId) (callback : H)
      (o : Offset) (db : OffsetDb H)
      → IsReordering reorder
      → to_fsuipc_offset boost var_id ≡ ok o
      → get_offset_for_subscription db.next_id db
        ≡ throws (db_no_such_subscription_error db.next_id)
      → (subs : SubscriptionMeta H) × (db' : OffsetDb H) × (create_subscription boost reorder var_id
            callback db
          ≡ (ok subs, db'))
        × (subs.subs_id ≡ db.next_id)
        × (db'.next_id ≡ add32 db.next_id 1)
        × (get_offset_for_subscription subs.subs_id db' ≡ ok o)
        × (get_subscriptions_for_offset o db'
            ≡ ok (handlers_at (find o db.offset_handlers) ++ (subs ∷ [])))
        × ((p : Offset)
            → p ≢ o
            → get_subscriptions_for_offset p db' ≡ get_subscriptions_for_offset p db)
  unfolding create_subscription insert_subscription make_subscription_id get_offset_for_subscription
      get_subscriptions_for_offset
  create_subscription_lem boost reorder var_id callback o db law named unused =
      let subs : SubscriptionMeta H = record {
        var_id = var_id;
        handler = callback;
        subs_id = db.next_id;
      } in
      let l = handlers_at (find o db.offset_handlers) ++ (subs ∷ []) in
      let m = assign o l db.offset_handlers in
      let at_o : find o (reorder m) ≡ some l =
        law.find-same o m ∙ find-assign_same o l db.offset_handlers in
      let found : offset_with db.next_id (reorder m) ≡ some o =
        only_at db.next_id o l (reorder m)
          (law.no_other _ m
            (new_at db.next_id o l db.offset_handlers (none_with db.next_id db unused)))
          at_o (has_subscription-append subs (handlers_at (find o db.offset_handlers))) in
      (
        subs,
        record {
          known_offsets = insert_known_offset o db.known_offsets;
          offset_handlers = reorder m;
          next_id = add32 db.next_id 1;
        },
        rw named refl,
        refl,
        refl,
        rw (found, get_offset_for_subscription) refl,
        rw (at_o, get_subscriptions_for_offset) refl,
        λ p ne.
            rw
              (
                law.find-same p m ∙ find-assign_other o p l db.offset_handlers ne,
                get_subscriptions_for_offset,
              )
              refl,
      )
