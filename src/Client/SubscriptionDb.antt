-- ===== src/Client/SubscriptionDb.antt =====
-- `subscription_db` of flightvars/include/flightvars/client/subscription_db.h and
-- flightvars/src/lib/client/subscription_db.cpp. Its three maps share their entries through pointers: a pointer is a
-- number, and `entries` is the memory that the pointers lead to. A pointer that leads nowhere is undefined
-- behaviour. The handlers are of any type `H`.
pub mod Ids
pub mod Sound
pub mod Entries
pub mod Lookups
pub mod Removals
pub mod LastRemoval
pub mod Additions
pub mod Calls
use open_airbus_cockpit.Prelude.{
  ℕ, ◌+◌, ◌%◌, ◌^◌, List, [], ◌∷◌, ◌++◌, Bool, true, false, Option, none, some, ◌==◌, if◌then◌else◌,
  length, Outcome, ok, throws, undefined, diverges, Action, and_then, ◌>>◌, ◌>>=◌, return, throw,
}
use open_airbus_cockpit.Prelude.Maps.{Map, find, erase, assign, same_number}
use open_airbus_cockpit.Subscription.{make_subscription_id}
use open_airbus_cockpit.Var.Types.{VariableId, same_variable}
use open_airbus_cockpit.Var.Value.{VariableValue}

pub data DbException : Type 0 where
  variable_already_exists_error : VariableId → DbException
  master_subscription_already_exists_error : ℕ → DbException
  no_such_variable_error : VariableId → DbException
  no_such_master_subscription_error : ℕ → DbException
  no_such_virtual_subscription_error : ℕ → DbException

pub record Virtual (H : Type 0) : Type 0 where
  pub id : ℕ
  pub handler : H

pub record Entry (H : Type 0) : Type 0 where
  pub var_id : VariableId
  pub master_subs_id : ℕ
  pub virtual_subs : List (Virtual H)

pub record SubscriptionDb (H : Type 0) : Type 0 where
  pub var_id_map : Map VariableId ℕ
  pub master_subs_id_map : Map ℕ ℕ
  pub virtual_subs_id_map : Map ℕ ℕ
  -- the memory of the entries, and the pointer that `make_shared` gives next
  pub entries : Map ℕ (Entry H)
  pub next_entry : ℕ
  -- the identifier that `make_subscription_id` gives next
  pub next_id : ℕ

-- A method of the database.
abbrev pub DbMethod : Type 0 → Type 0 → Type 0
DbMethod H A = Action DbException (SubscriptionDb H) A

unfoldable pub is_defined : {A : Type 0} → Option A → Bool
is_defined none = false
is_defined (some _) = true

module _ {H : Type 0} where
  unfoldable pub variable_defined : VariableId → SubscriptionDb H → Bool
  unfolding is_defined
  variable_defined var_id db = is_defined (find var_id db.var_id_map)

  unfoldable pub master_subscription_defined : ℕ → SubscriptionDb H → Bool
  unfolding is_defined
  master_subscription_defined subs_id db = is_defined (find subs_id db.master_subs_id_map)

  -- `*e`
  abbrev pub deref : ℕ → DbMethod H (Entry H)
  deref p db = elim (find p db.entries) [ none ↦ (undefined, db) | some e ↦ return e db ]

  -- `*e = entry`
  abbrev pub set_entry : ℕ → Entry H → DbMethod H (Unit {0})
  set_entry p e db = return tt (record db { entries = assign p e db.entries })

  unfoldable pub init_entry : VariableId → ℕ → DbMethod H ℕ
  init_entry var_id master_subs_id db =
      let e = db.next_entry in
      return e (record db {
        var_id_map = assign var_id e db.var_id_map;
        master_subs_id_map = assign master_subs_id e db.master_subs_id_map;
        entries =
            assign e
              (record { var_id = var_id; master_subs_id = master_subs_id; virtual_subs = [] })
              db.entries;
        next_entry = e + 1;
      })

  unfoldable pub get_entry_by_var : VariableId → DbMethod H ℕ
  get_entry_by_var var_id db = elim (find var_id db.var_id_map) [
    | none ↦ throw (no_such_variable_error var_id) db
    | some e ↦ return e db
  ]

  unfoldable pub get_entry_by_master : ℕ → DbMethod H ℕ
  get_entry_by_master master db = elim (find master db.master_subs_id_map) [
    | none ↦ throw (no_such_master_subscription_error master) db
    | some e ↦ return e db
  ]

  unfoldable pub get_entry_by_virtual : ℕ → DbMethod H ℕ
  get_entry_by_virtual virt_subs_id db = elim (find virt_subs_id db.virtual_subs_id_map) [
    | none ↦ throw (no_such_virtual_subscription_error virt_subs_id) db
    | some e ↦ return e db
  ]

  unfoldable pub get_virtual_subscriptions : VariableId → DbMethod H (List (Virtual H))
  unfolding get_entry_by_var
  get_virtual_subscriptions var_id = do
    p ← get_entry_by_var var_id
    e ← deref p
    return e.virtual_subs

  -- `remove_if` for the subscriptions of an identifier.
  unfoldable pub remove_if : ℕ → List (Virtual H) → List (Virtual H)
  remove_if id [] = []
  remove_if id (s ∷ ss) = let rest = remove_if id ss in if s.id == id then rest else s ∷ rest

  -- The size that is returned is an `unsigned int`.
  unfoldable pub remove_virtual : ℕ → DbMethod H ℕ
  unfolding get_entry_by_virtual remove_if
  remove_virtual virtual_subs_id = do
    p ← get_entry_by_virtual virtual_subs_id
    e ← deref p
    set_entry p (record e { virtual_subs = remove_if virtual_subs_id e.virtual_subs })
    λ db.
        return tt (record db { virtual_subs_id_map = erase virtual_subs_id db.virtual_subs_id_map })
    e' ← deref p
    return (length e'.virtual_subs % 2 ^ 32)

  unfoldable pub add_virtual_subscription : VariableId → H → DbMethod H ℕ
  unfolding variable_defined
  add_virtual_subscription var_id handler db = elim (find var_id db.var_id_map) [
    | none ↦ throw (no_such_variable_error var_id) db
    | some p ↦
        let (id, next_id) = make_subscription_id db.next_id in
        (do
          λ db. return tt (record db { next_id = next_id })
          e ← deref p
          set_entry p (record e {
            virtual_subs = e.virtual_subs ++ (record { id = id; handler = handler } ∷ []);
          })
          λ db. return tt (record db { virtual_subs_id_map = assign id p db.virtual_subs_id_map })
          return id)
          db
  ]

  pub create_entry : VariableId → ℕ → H → DbMethod H ℕ
  unfolding variable_defined master_subscription_defined init_entry add_virtual_subscription
  create_entry var_id master_subs_id handler db =
      if variable_defined var_id db
      then throw (variable_already_exists_error var_id) db
      else if master_subscription_defined master_subs_id db
      then throw (master_subscription_already_exists_error master_subs_id) db
      else (init_entry var_id master_subs_id >> add_virtual_subscription var_id handler) db

  -- The loop over the copy of the list.
  unfoldable pub remove_each : List (Virtual H) → DbMethod H (Unit {0})
  unfolding remove_virtual
  remove_each [] = return tt
  remove_each (s ∷ ss) = remove_virtual s.id >> remove_each ss

  unfoldable pub remove_entry : VariableId → DbMethod H (Unit {0})
  unfolding get_entry_by_var get_virtual_subscriptions remove_each
  remove_entry var_id = do
    p ← get_entry_by_var var_id
    virtuals ← get_virtual_subscriptions var_id
    remove_each virtuals
    e ← deref p
    λ db.
        return tt (record db { master_subs_id_map = erase e.master_subs_id db.master_subs_id_map })
    λ db. return tt (record db { var_id_map = erase var_id db.var_id_map })

  pub entry_defined : VariableId → SubscriptionDb H → Bool
  unfolding variable_defined
  entry_defined = variable_defined

  pub remove_virtual_subscription : ℕ → DbMethod H Bool
  unfolding get_entry_by_virtual remove_virtual remove_entry
  remove_virtual_subscription virtual_subs_id = do
    p ← get_entry_by_virtual virtual_subs_id
    left ← remove_virtual virtual_subs_id
    if left == 0 then (do e ← deref p; remove_entry e.var_id; return true) else return false

  -- The two overloads of `get_master_subscription_id`.
  pub master_of_variable : VariableId → DbMethod H ℕ
  unfolding get_entry_by_var
  master_of_variable var_id = do p ← get_entry_by_var var_id; e ← deref p; return e.master_subs_id

  pub master_of_virtual : ℕ → DbMethod H ℕ
  unfolding get_entry_by_virtual
  master_of_virtual virtual_subs_id = do
    p ← get_entry_by_virtual virtual_subs_id
    e ← deref p
    return e.master_subs_id

  -- The handlers that `invoke_handlers` calls, in order, and the variable that it passes to them.
  unfoldable pub handlers_of : ℕ → DbMethod H (VariableId × List (Virtual H))
  unfolding get_entry_by_master get_virtual_subscriptions
  handlers_of master_subs_id = do
    p ← get_entry_by_master master_subs_id
    e ← deref p
    virtuals ← get_virtual_subscriptions e.var_id
    return (e.var_id, virtuals)

  -- A handler may change all that it can reach, the state `S`; the loop is over a copy of the list.
  module _ {S : Type 0}
      (call : H → VariableId → VariableValue → Action DbException S (Unit {0})) where
    unfoldable pub invoke_each :
        VariableId → VariableValue → List (Virtual H) → Action DbException S (Unit {0})
    invoke_each var_id var_value [] = return tt
    invoke_each var_id var_value (s ∷ ss) =
        call s.handler var_id var_value >> invoke_each var_id var_value ss

    pub invoke_handlers : ℕ → VariableValue → SubscriptionDb H → Action DbException S (Unit {0})
    unfolding handlers_of invoke_each
    invoke_handlers master_subs_id var_value db s = elim (handlers_of master_subs_id db).0 [
      | ok (var_id, virtuals) ↦ invoke_each var_id var_value virtuals s
      | throws e ↦ throw e s
      | undefined ↦ (undefined, s)
      | diverges ↦ (diverges, s)
    ]
