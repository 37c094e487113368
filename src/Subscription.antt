-- ===== src/Subscription.antt =====
-- flightvars/include/flightvars/subscription and flightvars/src/lib/subscription: identifiers of subscriptions, and the
-- `subscription_mapper` between them and variables. Its map is a `boost::bimap`, whose operations are the
-- record `Bimap` and whose documented behaviour is `IsBimap`.
pub mod Relations
pub mod Mapping
pub mod Lookups
use open_airbus_cockpit.Prelude.{
  ℕ, List, [], ◌∷◌, Bool, true, false, Option, none, some, ◌==◌, if◌then◌else◌, Outcome, ok, throws,
  Action, and_then, ◌>>◌, ◌>>=◌, return, throw,
}
use open_airbus_cockpit.Prelude.Words.{add32}
use open_airbus_cockpit.Var.Types.{VariableId}
use open_airbus_cockpit.Subscription.Relations.{Bimap}

-- `next_id++` on the identifier to be given out next.
unfoldable pub make_subscription_id : ℕ → ℕ × ℕ
make_subscription_id next_id = (next_id, add32 next_id 1)

pub data MappingException : Type 0 where
  no_such_variable_error : VariableId → MappingException
  no_such_subscription_error : ℕ → MappingException
  variable_already_exists_error : VariableId → MappingException
  subscription_already_exists_error : ℕ → MappingException

module _ {S : Type 0} (map : Bimap S) where
  is_some : {A : Type 0} → Option A → Bool
  is_some none = false
  is_some (some _) = true

  pub clear : S → S
  clear s = map.clear s

  pub variable_subscription_exists : VariableId → S → Bool
  unfolding is_some
  variable_subscription_exists var_id s = is_some (map.find_left var_id s)

  pub id_subscription_exists : ℕ → S → Bool
  unfolding is_some
  id_subscription_exists subs_id s = is_some (map.find_right subs_id s)

  pub register_subscription : VariableId → ℕ → Action MappingException S (Unit {0})
  unfolding variable_subscription_exists id_subscription_exists
  register_subscription var_id subs_id s =
      if variable_subscription_exists var_id s
      then throw (variable_already_exists_error var_id) s
      else if id_subscription_exists subs_id s
      then throw (subscription_already_exists_error subs_id) s
      else return tt (map.insert var_id subs_id s)

  -- The calls of the action, in order.
  pub for_each_subscription :
      {E A : Type 0} → (ℕ → Action E A (Unit {0})) → S → Action E A (Unit {0})
  for_each_subscription {E} {A} action s = each (map.rights s)
    where
      each : List ℕ → Action E A (Unit {0})
      each [] = return tt
      each (id ∷ ids) = action id >> each ids

  pub get_var_id : ℕ → S → Outcome MappingException VariableId
  get_var_id subs_id s = elim (map.find_right subs_id s) [
    | none ↦ throws (no_such_subscription_error subs_id)
    | some var_id ↦ ok var_id
  ]

  pub get_subscription_id : VariableId → S → Outcome MappingException ℕ
  get_subscription_id var_id s = elim (map.find_left var_id s) [
    | none ↦ throws (no_such_variable_error var_id)
    | some subs_id ↦ ok subs_id
  ]

  pub unregister_variable : VariableId → Action MappingException S (Unit {0})
  unregister_variable var_id s =
      let (count, s') = map.erase_left var_id s in
      if count == 0 then throw (no_such_variable_error var_id) s' else return tt s'

  pub unregister_id : ℕ → Action MappingException S (Unit {0})
  unregister_id subs_id s =
      let (count, s') = map.erase_right subs_id s in
      if count == 0 then throw (no_such_subscription_error subs_id) s' else return tt s'
