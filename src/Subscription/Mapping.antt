-- ===== src/Subscription/Mapping.antt =====
-- What the operations of the subscription mapper make of it.
use open_airbus_cockpit.Prelude.{
  ℕ, ◌≡◌, ◌≢◌, refl, sym, ap, ◌∙◌, inl, inr, Option-cases, none, some, ok, throws,
}
use open_airbus_cockpit.Var.Types.{VariableId}
use open_airbus_cockpit.Subscription.Relations.{Bimap, IsBimap}
use open_airbus_cockpit.Subscription.{
  no_such_variable_error, no_such_subscription_error, variable_already_exists_error,
  subscription_already_exists_error, is_some, variable_subscription_exists, id_subscription_exists,
  register_subscription, get_var_id, get_subscription_id, unregister_variable, unregister_id,
}

module _ {S : Type 0} {map : Bimap S} {Valid : S → Type 0} (laws : IsBimap map Valid) where
  -- In a map made by the operations, a registration of a new variable under a new identifier succeeds; from then on each leads to the other,
  -- any other variable leads where it did, and a registration of the variable, or of its identifier for another variable
  -- that leads nowhere, throws and changes nothing.
  pub register_subscription_lem :
      (var other unknown : VariableId) (id another : ℕ) (s : S)
      → Valid s
      → map.find_left var s ≡ none
      → map.find_right id s ≡ none
      → other ≢ var
      → unknown ≢ var
      → map.find_left unknown s ≡ none
      → (s' : S) × (register_subscription map var id s ≡ (ok tt, s'))
        × (get_subscription_id map var s' ≡ ok id)
        × (get_var_id map id s' ≡ ok var)
        × (get_subscription_id map other s' ≡ get_subscription_id map other s)
        × (register_subscription map var another s'
            ≡ (throws (variable_already_exists_error var), s'))
        × (register_subscription map unknown id s'
            ≡ (throws (subscription_already_exists_error id), s'))
        × Valid s'
  unfolding register_subscription variable_subscription_exists id_subscription_exists is_some
      get_var_id get_subscription_id
  register_subscription_lem var other unknown id another s v new_var new_id differs apart nowhere =
      let s' = map.insert var id s in
      let (there, kept, v') = laws.insert_new var other id s v new_var new_id differs in
      let back = laws.right_of_left var id s' v' there in
      let (_, same, _) = laws.insert_new var unknown id s v new_var new_id apart in
      let still = same ∙ nowhere in
      (
        s',
        rw (variable_subscription_exists, id_subscription_exists, new_var, new_id) refl,
        rw (there, get_subscription_id) refl,
        rw (back, get_var_id) refl,
        rw (kept, get_subscription_id) refl,
        rw (variable_subscription_exists, there) refl,
        rw (variable_subscription_exists, id_subscription_exists, still, back) refl,
        v',
      )

  -- The identifier of an unregistered variable leads nowhere.
  identifier_gone :
      (var : VariableId) (id : ℕ) (s s' : S)
      → Valid s
      → Valid s'
      → map.find_left var s ≡ some id
      → map.erase_left var s ≡ (1, s')
      → map.find_left var s' ≡ none
      → map.find_right id s' ≡ none
  identifier_gone var id s s' v v' there run gone = elim (Option-cases (map.find_right id s')) [
    | inl e ↦ e
    | inr (w, e) ↦
        let at_w = laws.left_of_right w id s' v' e in
        let differs : w ≢ var = λ p.
          let q : none ≡ some id = sym gone ∙ ap (λ u. map.find_left u s') (sym p) ∙ at_w in cc in
        let before : map.find_left w s ≡ some id =
          sym (laws.find-erase_left_other var w s differs)
          ∙ ap (λ r. map.find_left w r.1) run
          ∙ at_w in
        let same : some w ≡ some var =
          sym (laws.right_of_left w id s v before) ∙ laws.right_of_left var id s v there in
        absurd (differs cc)
  ]

  -- In a map made by the operations, to unregister a variable that is registered under an identifier, and to unregister that identifier, come to the same:
  -- both succeed, neither leads anywhere after, other variables lead where they did, and to unregister
  -- either again throws and changes nothing.
  pub unregister_lem :
      (var other : VariableId) (id : ℕ) (s : S)
      → Valid s
      → map.find_left var s ≡ some id
      → other ≢ var
      → (s' : S) × (unregister_variable map var s ≡ (ok tt, s'))
        × (unregister_id map id s ≡ (ok tt, s'))
        × (get_subscription_id map var s' ≡ throws (no_such_variable_error var))
        × (get_subscription_id map other s' ≡ get_subscription_id map other s)
        × (get_var_id map id s' ≡ throws (no_such_subscription_error id))
        × (unregister_variable map var s' ≡ (throws (no_such_variable_error var), s'))
        × (unregister_id map id s' ≡ (throws (no_such_subscription_error id), s'))
        × Valid s'
  unfolding unregister_variable unregister_id get_subscription_id get_var_id
  unregister_lem var other id s v there differs =
      let (s', run, gone, v') = laws.erase_left_some var id s v there in
      let same = laws.erase_right_left var id s (laws.right_of_left var id s v there) in
      let kept : map.find_left other s' ≡ map.find_left other s =
        ap (λ r. map.find_left other r.1) (sym run)
        ∙ laws.find-erase_left_other var other s differs in
      let neither = identifier_gone var id s s' v v' there run gone in
      let again = laws.erase_left_none var s' gone in
      (
        s',
        rw run refl,
        rw (same, run) refl,
        rw (gone, get_subscription_id) refl,
        rw (kept, get_subscription_id) refl,
        rw (neither, get_var_id) refl,
        rw again refl,
        rw (laws.erase_right_none id s' neither) refl,
        v',
      )
