-- ===== src/Fsuipc/Master.antt =====
-- `fsuipc_flight_vars` of flightvars/src/module/fsuipc.h over any user adapter, and the conversions of values in
-- flightvars/src/module/fsuipc.cpp. The log is left out.
pub mod Values
pub mod Unsubscribing
use open_airbus_cockpit.Prelude.{
  ℕ, ◌%◌, if◌then◌else◌, Bool, true, false, List, [], ◌∷◌, Option, none, some, Outcome, ok, throws,
  undefined, diverges, on_ok, Action, and_then, ◌>>=◌, ◌>>◌, return, throw, lift, raise, catching,
}
use open_airbus_cockpit.Prelude.Words.{u8_mod, u16_mod, u32_mod}
use open_airbus_cockpit.Exception.{
  no_such_variable_error, no_such_subscription_error, invalid_value_type_error, invalid_type_error,
}
use open_airbus_cockpit.Var.Types.{VariableId, boolean, byte, word, dword, float}
use open_airbus_cockpit.Var.Value.{
  VariableValue, bool_byte, from_byte, from_word, from_dword, as_bool, as_byte, as_word, as_dword,
  as_float,
}
use open_airbus_cockpit.Fsuipc.Offset.{
  Offset, same_offset, OffsetLength, offset_len_byte, offset_len_word, offset_len_dword,
  ValuedOffset, FsuipcException, invalid_var_group_error, var_name_syntax_error,
  db_no_such_subscription_error, raised,
}
use open_airbus_cockpit.Fsuipc.Client
use open_airbus_cockpit.Fsuipc.Client.{UserAdapter}
use open_airbus_cockpit.Fsuipc.UpdateObserver
use open_airbus_cockpit.Fsuipc.UpdateObserver.{Observed, start_observing, stop_observing}
use open_airbus_cockpit.Fsuipc.Names.{Boost}
use open_airbus_cockpit.Fsuipc.OffsetDb.{
  OffsetDb, Handlers, SubscriptionMeta, create_subscription, remove_subscription,
  get_subscriptions_for_offset, get_offset_for_subscription,
}

unfoldable pub to_variable_value : ValuedOffset → Outcome FsuipcException VariableValue
to_variable_value v = elim v.offset.length [
  | offset_len_byte ↦ raise raised (from_byte (v.value % u8_mod))
  | offset_len_word ↦ raise raised (from_word (v.value % u16_mod))
  | offset_len_dword ↦ raise raised (from_dword (v.value % u32_mod))
]

-- The conversion of a float to a number is the machine's, and undefined where it is none.
unfoldable pub to_fsuipc_offset_value : (ℕ → Option ℕ) → VariableValue → Outcome FsuipcException ℕ
to_fsuipc_offset_value truncate v = elim v.type [
  | boolean ↦ raise raised (on_ok (as_bool v) λ b. ok (bool_byte b))
  | byte ↦ raise raised (as_byte v)
  | word ↦ raise raised (as_word v)
  | dword ↦ raise raised (as_dword v)
  | float ↦
      on_ok (raise raised (as_float v)) λ x. elim (truncate x) [ none ↦ undefined | some n ↦ ok n ]
]

-- What the master is compiled with and what its handlers, of type `H`, do.
pub record Environment (S H U : Type 0) : Type 0 where
  pub boost : Boost
  -- the order of the database's map after an insertion
  pub reorder : Handlers H → Handlers H
  pub adapter : UserAdapter S
  pub truncate : ℕ → Option ℕ
  pub call : H → VariableId → VariableValue → Action FsuipcException U (Unit {0})

pub record Master (S H U : Type 0) : Type 0 where
  pub db : OffsetDb H
  pub client : S
  pub observed : Observed
  pub user : U

abbrev pub is_invalid_var : FsuipcException → Bool
is_invalid_var (invalid_var_group_error _ _) = true
is_invalid_var (var_name_syntax_error _) = true
is_invalid_var _ = false

abbrev pub known_offset : Offset → List Offset → Bool
known_offset o [] = false
known_offset o (p ∷ ps) = elim (same_offset p o) [ yes _ ↦ true | no _ ↦ known_offset o ps ]

module _ {S H U : Type 0} (env : Environment S H U) where
  open env use {boost, adapter, truncate, call}

  abbrev pub Step : Type 0 → Type 0
  Step A = Action FsuipcException (Master S H U) A

  abbrev pub on_db : {A : Type 0} → Action FsuipcException (OffsetDb H) A → Step A
  on_db f m = let (o, db) = f m.db in (o, record m { db = db })

  abbrev pub on_client : {A : Type 0} → Action FsuipcException S A → Step A
  on_client f m = let (o, s) = f m.client in (o, record m { client = s })

  abbrev pub on_observer : {A : Type 0} → Action FsuipcException (S × Observed) A → Step A
  on_observer f m =
      let (o, rest) = f (m.client, m.observed) in
      (o, record m { client = rest.0; observed = rest.1 })

  pub subscribe : VariableId → H → Step ℕ
  subscribe var handler m =
      catching
        ((do
          subs ← on_db (create_subscription boost env.reorder var handler)
          offset ← λ d. (get_offset_for_subscription subs.subs_id d.db, d)
          on_observer (start_observing adapter offset)
          return subs.subs_id)
          m)
        (λ e. if is_invalid_var e then some (throw (raised (no_such_variable_error var))) else none)

  -- The `catch` clause of `unsubscribe`, and the first one of `update`.
  abbrev pub no_subscription : {A : Type 0} → ℕ → FsuipcException → Option (Step A)
  no_subscription id (db_no_such_subscription_error _) =
      some (throw (raised (no_such_subscription_error id)))
  no_subscription id _ = none

  pub unsubscribe : ℕ → Step (Unit {0})
  unsubscribe id m =
      catching
        ((do
          offset ← λ d. (get_offset_for_subscription id d.db, d)
          λ d. return tt (record d { db = remove_subscription id d.db })
          λ d. return tt (
              if known_offset offset d.db.known_offsets
              then d
              else record d { observed = stop_observing offset d.observed }))
          m)
        (no_subscription id)

  unfoldable pub update_offset : Offset → VariableValue → Step (Unit {0})
  unfolding to_fsuipc_offset_value
  update_offset offset value = do
    v ← lift (to_fsuipc_offset_value truncate value)
    on_client (Client.update adapter (record { offset = offset; value = v } ∷ []))

  abbrev pub update_error : ℕ → VariableValue → FsuipcException → Option (Step (Unit {0}))
  update_error id value (raised (invalid_type_error _ _)) =
      some (throw (raised (invalid_value_type_error id value.type)))
  update_error id value e = no_subscription id e

  pub update : ℕ → VariableValue → Step (Unit {0})
  unfolding update_offset
  update id value m =
      catching
        ((do offset ← λ d. (get_offset_for_subscription id d.db, d); update_offset offset value) m)
        (update_error id value)

  -- The loop of `on_offset_update`.
  unfoldable pub notify_each :
      ValuedOffset → List (SubscriptionMeta H) → Action FsuipcException U (Unit {0})
  unfolding to_variable_value
  notify_each v [] = return tt
  notify_each v (subs ∷ rest) = do
    value ← lift (to_variable_value v)
    call subs.handler subs.var_id value
    notify_each v rest

  unfoldable pub on_offset_update :
      ValuedOffset → Action FsuipcException (OffsetDb H × U) (Unit {0})
  unfolding notify_each
  on_offset_update v (db, u) = elim (get_subscriptions_for_offset v.offset db) [
    | ok subs ↦ let (o, u') = notify_each v subs u in (o, (db, u'))
    | throws e ↦ (throws e, (db, u))
    | undefined ↦ (undefined, (db, u))
    | diverges ↦ (diverges, (db, u))
  ]

  pub check_for_updates : Step (Unit {0})
  unfolding on_offset_update
  check_for_updates m =
      let (o, (s, (ob, (db, u)))) =
        UpdateObserver.check_for_updates on_offset_update adapter
          (m.client, (m.observed, (m.db, m.user))) in
      (o, record { db = db; client = s; observed = ob; user = u })
