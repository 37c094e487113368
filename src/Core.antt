-- ===== src/Core.antt =====
-- `flight_vars_core` of flightvars/include/flightvars/core.h and flightvars/src/module/core.cpp. A pointer to a
-- master is a number; the masters' own state is of any type `M`, and their virtual functions are the record
-- `FlightVars` (flightvars/include/flightvars/api.h). The handlers are of any type `H`: the core passes them on.
pub mod Routing
pub mod Traces
use open_airbus_cockpit.Prelude.{
  ℕ, List, [], Option, none, some, Outcome, ok, throws, Action, and_then, ◌>>=◌, ◌>>◌, return,
  throw, undefined, diverges,
}
use open_airbus_cockpit.Prelude.Maps.{Map, find, erase, assign, same_number, same_string}
use open_airbus_cockpit.Exception.{
  Exception, no_such_variable_error, no_such_subscription_error, master_already_registered, Method,
}
use open_airbus_cockpit.Var.Types.{VariableId}
use open_airbus_cockpit.Var.Value.{VariableValue}

-- `master->subscribe(var, handler)` and so on; the first argument is the master.
pub record FlightVars (M H : Type 0) : Type 0 where
  pub subscribe : ℕ → VariableId → H → Method M ℕ
  pub unsubscribe : ℕ → ℕ → Method M (Unit {0})
  pub update : ℕ → ℕ → VariableValue → Method M (Unit {0})

pub record Core (M : Type 0) : Type 0 where
  pub group_masters : Map (List ℕ) ℕ
  pub subscriptions : Map ℕ ℕ
  pub masters : M

-- The core that `instance` makes.
abbrev pub new_core : {M : Type 0} → M → Core M
new_core masters = record { group_masters = []; subscriptions = []; masters = masters }

module _ {M : Type 0} where
  -- A call of a master.
  abbrev pub on_masters : {A : Type 0} → Method M A → Method (Core M) A
  on_masters f c = let (o, m) = f c.masters in (o, record c { masters = m })

  unfoldable pub get_master_by_var_id : VariableId → Method (Core M) ℕ
  get_master_by_var_id var c = elim (find var.group c.group_masters) [
    | none ↦ throw (no_such_variable_error var) c
    | some master ↦ return master c
  ]

  unfoldable pub get_master_by_subs_id : ℕ → Core M → Option ℕ
  get_master_by_subs_id id c = find id c.subscriptions

  unfoldable pub register_group_master : List ℕ → ℕ → Method (Core M) (Unit {0})
  register_group_master grp master c = elim (find grp c.group_masters) [
    | some _ ↦ throw (master_already_registered grp) c
    | none ↦ return tt (record c { group_masters = assign grp master c.group_masters })
  ]

  module _ {H : Type 0} (ops : FlightVars M H) where
    unfoldable pub subscribe : VariableId → H → Method (Core M) ℕ
    unfolding get_master_by_var_id
    subscribe var handler = do
      master ← get_master_by_var_id var
      id ← on_masters (ops.subscribe master var handler)
      λ c. return tt (record c { subscriptions = assign id master c.subscriptions })
      return id

    pub unsubscribe : ℕ → Method (Core M) (Unit {0})
    unsubscribe id c = elim (find id c.subscriptions) [
      | none ↦ throw (no_such_subscription_error id) c
      | some master ↦
          (do
            on_masters (ops.unsubscribe master id)
            λ c. return tt (record c { subscriptions = erase id c.subscriptions }))
            c
    ]

    pub update : ℕ → VariableValue → Method (Core M) (Unit {0})
    unfolding get_master_by_subs_id
    update id value c = elim (get_master_by_subs_id id c) [
      | none ↦ return tt c
      | some master ↦ on_masters (ops.update master id value) c
    ]
