-- ===== src/Subscription/Lookups.antt =====
-- Single calls of the subscription mapper, where its map is known to lead somewhere or nowhere.
use open_airbus_cockpit.Prelude.{
  ℕ, suc, ◌≡◌, ◌≢◌, refl, ap, arith, ◌∷◌, length, true, false, none, some, ok, throws,
}
use open_airbus_cockpit.Var.Types.{VariableId}
use open_airbus_cockpit.Subscription.Relations.{Bimap, IsBimap}
use open_airbus_cockpit.Subscription.{
  no_such_variable_error, no_such_subscription_error, is_some, variable_subscription_exists,
  id_subscription_exists, register_subscription, get_var_id, get_subscription_id, unregister_id,
}

-- A variable other than `v`.
abbrev another : VariableId → VariableId
another v = record { group = 0 ∷ v.group; name = v.name }

another_differs : (v : VariableId) → another v ≢ v
another_differs v e =
    let h : suc (length v.group) ≡ length v.group = ap (λ u. length u.group) e in
    absurd (omega arith)

module _ {S : Type 0} {map : Bimap S} {Valid : S → Type 0} (laws : IsBimap map Valid) where
  pub insert_lem :
      (v : VariableId) (i : ℕ) (s : S)
      → Valid s
      → map.find_left v s ≡ none
      → map.find_right i s ≡ none
      → (map.find_left v (map.insert v i s) ≡ some i)
        × (map.find_right i (map.insert v i s) ≡ some v)
        × Valid (map.insert v i s)
  insert_lem v i s valid new_var new_id =
      let (there, kept, valid') =
        laws.insert_new v (another v) i s valid new_var new_id (another_differs v) in
      (there, laws.right_of_left v i (map.insert v i s) valid' there, valid')

  pub unregister_id-some :
      (v : VariableId) (i : ℕ) (s : S)
      → Valid s
      → map.find_right i s ≡ some v
      → (s' : S) × (unregister_id map i s ≡ (ok tt, s')) × (map.find_left v s' ≡ none) × Valid s'
  unfolding unregister_id
  unregister_id-some v i s valid there =
      let (s', run, gone, valid') =
        laws.erase_left_some v i s valid (laws.left_of_right v i s valid there) in
      (s', rw (laws.erase_right_left v i s there, run) refl, gone, valid')

  pub unregister_id-none :
      (i : ℕ) (s : S)
      → map.find_right i s ≡ none
      → unregister_id map i s ≡ (throws (no_such_subscription_error i), s)
  unfolding unregister_id
  unregister_id-none i s gone = rw (laws.erase_right_none i s gone) refl

module _ {S : Type 0} (map : Bimap S) where
  pub variable_subscription_exists-some :
      (v : VariableId) (i : ℕ) (s : S)
      → map.find_left v s ≡ some i
      → variable_subscription_exists map v s ≡ true
  unfolding variable_subscription_exists is_some
  variable_subscription_exists-some v i s h = rw h refl

  pub variable_subscription_exists-none :
      (v : VariableId) (s : S)
      → map.find_left v s ≡ none
      → variable_subscription_exists map v s ≡ false
  unfolding variable_subscription_exists is_some
  variable_subscription_exists-none v s h = rw h refl

  pub register_subscription_new :
      (v : VariableId) (i : ℕ) (s : S)
      → map.find_left v s ≡ none
      → map.find_right i s ≡ none
      → register_subscription map v i s ≡ (ok tt, map.insert v i s)
  unfolding register_subscription variable_subscription_exists id_subscription_exists is_some
  register_subscription_new v i s new_var new_id = rw (new_var, new_id) refl

  pub get_subscription_id-some :
      (v : VariableId) (i : ℕ) (s : S)
      → map.find_left v s ≡ some i
      → get_subscription_id map v s ≡ ok i
  unfolding get_subscription_id
  get_subscription_id-some v i s h = rw (h, get_subscription_id) refl

  pub get_subscription_id-none :
      (v : VariableId) (s : S)
      → map.find_left v s ≡ none
      → get_subscription_id map v s ≡ throws (no_such_variable_error v)
  unfolding get_subscription_id
  get_subscription_id-none v s h = rw (h, get_subscription_id) refl

  pub get_var_id-some :
      (v : VariableId) (i : ℕ) (s : S) → map.find_right i s ≡ some v → get_var_id map i s ≡ ok v
  unfolding get_var_id
  get_var_id-some v i s h = rw (h, get_var_id) refl
