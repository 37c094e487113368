-- ===== src/Core/Routing.antt =====
-- Which master the calls of the core reach, and what they leave in it.
use open_airbus_cockpit.Prelude.{ℕ, ◌≡◌, ◌≢◌, refl, none, some, ok, throws}
use open_airbus_cockpit.Prelude.Maps.{
  find, erase, assign, find-erase_same, find-erase_other, find-assign_same, find-assign_other,
  same_number, same_string,
}
use open_airbus_cockpit.Exception.{no_such_subscription_error, master_already_registered}
use open_airbus_cockpit.Var.Types.{VariableId}
use open_airbus_cockpit.Var.Value.{VariableValue}
use open_airbus_cockpit.Core.{
  FlightVars, Core, get_master_by_var_id, get_master_by_subs_id, register_group_master, subscribe,
  unsubscribe, update,
}

module _ {M H : Type 0} (ops : FlightVars M H) where
  -- `subscribe` for a variable whose group has a master that returns an identifier returns that too; the identifier
  -- leads to the master from then on, every other one leads where it did, and the groups keep their masters.
  pub subscribe_routes :
      (c : Core M) (var : VariableId) (handler : H) (master id j : ℕ) (m : M)
      → find var.group c.group_masters ≡ some master
      → ops.subscribe master var handler c.masters ≡ (ok id, m)
      → j ≢ id
      → (c' : Core M) × (subscribe ops var handler c ≡ (ok id, c'))
        × (get_master_by_subs_id id c' ≡ some master)
        × (get_master_by_subs_id j c' ≡ get_master_by_subs_id j c)
        × (c'.group_masters ≡ c.group_masters)
        × (c'.masters ≡ m)
  unfolding subscribe get_master_by_var_id get_master_by_subs_id
  subscribe_routes c var handler master id j m found run other = (
    record c { masters = m; subscriptions = assign id master c.subscriptions },
    rw (found, run, get_master_by_var_id) refl,
    find-assign_same id master c.subscriptions,
    find-assign_other id j master c.subscriptions other,
    refl,
    refl,
  )

  -- `unsubscribe` of an identifier that leads to a master which accepts it makes the core forget that identifier and
  -- no other: a second `unsubscribe` of it throws, without reaching any master.
  pub unsubscribe_forgets :
      (c : Core M) (master id j : ℕ) (m : M)
      → get_master_by_subs_id id c ≡ some master
      → ops.unsubscribe master id c.masters ≡ (ok tt, m)
      → j ≢ id
      → (c' : Core M) × (unsubscribe ops id c ≡ (ok tt, c'))
        × (unsubscribe ops id c' ≡ (throws (no_such_subscription_error id), c'))
        × (get_master_by_subs_id j c' ≡ get_master_by_subs_id j c)
        × (c'.group_masters ≡ c.group_masters)
        × (c'.masters ≡ m)
  unfolding unsubscribe get_master_by_subs_id
  unsubscribe_forgets c master id j m found run other = (
    record c { masters = m; subscriptions = erase id c.subscriptions },
    rw (found, run, unsubscribe) refl,
    rw (find-erase_same id c.subscriptions, unsubscribe) refl,
    find-erase_other id j c.subscriptions other,
    refl,
    refl,
  )

  -- An `update` under an identifier that leads nowhere reaches no master, changes nothing and does not throw, where
  -- `unsubscribe` under the same identifier throws.
  pub update_ignores :
      (c : Core M) (id : ℕ) (value : VariableValue)
      → get_master_by_subs_id id c ≡ none
      → (update ops id value c ≡ (ok tt, c))
        × (unsubscribe ops id c ≡ (throws (no_such_subscription_error id), c))
  unfolding update unsubscribe get_master_by_subs_id
  update_ignores c id value missing = (rw (missing, update) refl, rw (missing, unsubscribe) refl)

  -- After `register_group_master` for a group without a master, `subscribe` to a variable of the group calls that
  -- master, and a second registration for the group throws and changes nothing.
  pub register_group_master_once :
      (c : Core M) (var : VariableId) (handler : H) (master other id : ℕ) (m : M)
      → find var.group c.group_masters ≡ none
      → ops.subscribe master var handler c.masters ≡ (ok id, m)
      → (c' : Core M) × (register_group_master var.group master c ≡ (ok tt, c'))
        × (register_group_master var.group other c'
            ≡ (throws (master_already_registered var.group), c'))
        × ((subscribe ops var handler c').0 ≡ ok id)
  unfolding register_group_master subscribe get_master_by_var_id
  register_group_master_once c var handler master other id m missing run =
      let there = find-assign_same var.group master c.group_masters in
      (
        record c { group_masters = assign var.group master c.group_masters },
        rw (missing, register_group_master) refl,
        rw (there, register_group_master) refl,
        rw (there, run, get_master_by_var_id) refl,
      )
