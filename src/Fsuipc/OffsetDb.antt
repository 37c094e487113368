-- ===== src/Fsuipc/OffsetDb.antt =====
-- `subscription_meta` and `fsuipc_offset_db` of flightvars/src/module/fsuipc.h and fsuipc.cpp. The handlers are of any type
-- `H`. The map is the list of its entries in the order in
-- which it is gone through; `reorder` is the order that an insertion leaves, which the standard library does
-- not specify, while the removal of an entry keeps the order of the others.
pub mod Subscriptions
use open_airbus_cockpit.Prelude.{
  ℕ, ◌==◌, if◌then◌else◌, Bool, true, false, List, [], ◌∷◌, ◌++◌, Option, none, some, Outcome, ok,
  throws, Action, and_then, ◌>>=◌, ◌>>◌, return, lift,
}
use open_airbus_cockpit.Prelude.Maps.{Map, find, assign}
use open_airbus_cockpit.Var.Types.{VariableId}
use open_airbus_cockpit.Subscription.{make_subscription_id}
use open_airbus_cockpit.Fsuipc.Offset.{
  Offset, same_offset, FsuipcException, no_such_offset_error, db_no_such_subscription_error,
}
use open_airbus_cockpit.Fsuipc.Names.{Boost, to_fsuipc_offset}

pub record SubscriptionMeta (H : Type 0) : Type 0 where
  pub var_id : VariableId
  pub handler : H
  pub subs_id : ℕ

abbrev pub Handlers : Type 0 → Type 0
Handlers H = Map Offset (List (SubscriptionMeta H))

-- The database, with the identifier that is given out next.
pub record OffsetDb (H : Type 0) : Type 0 where
  pub known_offsets : List Offset
  pub offset_handlers : Handlers H
  pub next_id : ℕ

unfoldable pub insert_known_offset : Offset → List Offset → List Offset
insert_known_offset offset known = if none_is known then known ++ (offset ∷ []) else known
  where
    none_is : List Offset → Bool
    none_is [] = true
    none_is (o ∷ os) = elim (same_offset o offset) [ yes _ ↦ false | no _ ↦ none_is os ]

unfoldable pub remove_known_offset : Offset → List Offset → List Offset
remove_known_offset offset [] = []
remove_known_offset offset (o ∷ os) =
    let rest = remove_known_offset offset os in
    elim (same_offset o offset) [ yes _ ↦ rest | no _ ↦ o ∷ rest ]

module _ {H : Type 0} where
  -- `_offset_handlers[offset]`, which is empty where it is new.
  unfoldable pub handlers_at : Option (List (SubscriptionMeta H)) → List (SubscriptionMeta H)
  handlers_at none = []
  handlers_at (some l) = l

  unfoldable pub insert_subscription :
      (Handlers H → Handlers H)
      → Offset
      → VariableId
      → H
      → OffsetDb H
      → SubscriptionMeta H × OffsetDb H
  unfolding handlers_at
  insert_subscription reorder offset var_id callback db =
      let (id, next) = make_subscription_id db.next_id in
      let subs : SubscriptionMeta H = record {
        var_id = var_id;
        handler = callback;
        subs_id = id;
      } in
      (
        subs,
        record db {
          offset_handlers = reorder (
              assign offset (handlers_at (find offset db.offset_handlers) ++ (subs ∷ []))
                db.offset_handlers);
          next_id = next;
        },
      )

  unfoldable pub create_subscription :
      Boost
      → (Handlers H → Handlers H)
      → VariableId
      → H
      → Action FsuipcException (OffsetDb H) (SubscriptionMeta H)
  unfolding insert_known_offset insert_subscription
  create_subscription boost reorder var_id callback = do
    offset ← lift (to_fsuipc_offset boost var_id)
    λ db. return tt (record db { known_offsets = insert_known_offset offset db.known_offsets })
    λ db. let (subs, db') = insert_subscription reorder offset var_id callback db in return subs db'

  -- `list.remove_if` for an identifier.
  unfoldable pub remove_if : ℕ → List (SubscriptionMeta H) → List (SubscriptionMeta H)
  remove_if id [] = []
  remove_if id (s ∷ ss) = let rest = remove_if id ss in if s.subs_id == id then rest else s ∷ rest

  -- The loop of `remove_subscription`, over the map and the known offsets; an entry that becomes empty is erased.
  unfoldable pub remove_each : ℕ → Handlers H → List Offset → Handlers H × List Offset
  unfolding remove_if remove_known_offset
  remove_each id [] known = ([], known)
  remove_each id ((o, subs) ∷ m) known =
      let left = remove_if id subs in
      elim left [
        | [] ↦ remove_each id m (remove_known_offset o known)
        | s ∷ ss ↦ let (m', known') = remove_each id m known in ((o, s ∷ ss) ∷ m', known')
      ]

  unfoldable pub remove_subscription : ℕ → OffsetDb H → OffsetDb H
  unfolding remove_each
  remove_subscription id db =
      let (m, known) = remove_each id db.offset_handlers db.known_offsets in
      record db { offset_handlers = m; known_offsets = known }

  unfoldable pub get_subscriptions_for_offset :
      Offset → OffsetDb H → Outcome FsuipcException (List (SubscriptionMeta H))
  get_subscriptions_for_offset offset db = elim (find offset db.offset_handlers) [
    | none ↦ throws (no_such_offset_error offset.address offset.length)
    | some subs ↦ ok subs
  ]

  unfoldable pub has_subscription : ℕ → List (SubscriptionMeta H) → Bool
  has_subscription id [] = false
  has_subscription id (s ∷ ss) = if s.subs_id == id then true else has_subscription id ss

  -- The loop of `get_offset_for_subscription`.
  unfoldable pub offset_with : ℕ → Handlers H → Option Offset
  unfolding has_subscription
  offset_with id [] = none
  offset_with id ((o, subs) ∷ m) = if has_subscription id subs then some o else offset_with id m

  unfoldable pub get_offset_for_subscription : ℕ → OffsetDb H → Outcome FsuipcException Offset
  unfolding offset_with
  get_offset_for_subscription id db = elim (offset_with id db.offset_handlers) [
    | none ↦ throws (db_no_such_subscription_error id)
    | some o ↦ ok o
  ]
