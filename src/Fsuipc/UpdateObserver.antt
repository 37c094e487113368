-- ===== src/Fsuipc/UpdateObserver.antt =====
-- `update_observer` of liboac/include/liboac/fsuipc/update_observer.h. A set of offsets is a map to nothing; the evaluation
-- function changes a state `U` of its own and does not call the observer back.
pub mod Tracking
pub mod Checks
use open_airbus_cockpit.Prelude.{
  ℕ, ◌==◌, if◌then◌else◌, List, [], ◌∷◌, Option, none, some, Outcome, ok, undefined, Action,
  and_then, ◌>>=◌, ◌>>◌, return,
}
use open_airbus_cockpit.Prelude.Maps.{Map, find, assign, erase}
use open_airbus_cockpit.Fsuipc.Offset.{Offset, same_offset, ValuedOffset, FsuipcException}
use open_airbus_cockpit.Fsuipc.Client.{UserAdapter, query}

abbrev pub OffsetSet : Type 0
OffsetSet = Map Offset (Unit {0})

abbrev pub offsets_of : OffsetSet → List Offset
offsets_of [] = []
offsets_of ((o, _) ∷ m) = o ∷ offsets_of m

-- The members of `update_observer`, but for its client.
pub record Observed : Type 0 where
  pub offsets : OffsetSet
  pub pending_welcomes : OffsetSet
  pub values : Map Offset ℕ

abbrev pub Evaluation : Type 0 → Type 0
Evaluation T = ValuedOffset → Action FsuipcException T (Unit {0})

-- The first loop of `start_observing`.
unfoldable pub insert_each : List Offset → Observed → Observed
insert_each [] ob = ob
insert_each (o ∷ os) ob = insert_each os (record ob {
  offsets = assign o tt ob.offsets;
  pending_welcomes = assign o tt ob.pending_welcomes;
})

-- `_values[val] = val.value`
unfoldable pub cache : Evaluation Observed
cache val ob = return tt (record ob { values = assign val.offset val.value ob.values })

module _ {S : Type 0} (adapter : UserAdapter S) where
  unfoldable pub start_observing_each :
      List Offset → Action FsuipcException (S × Observed) (Unit {0})
  unfolding insert_each cache
  start_observing_each os (s, ob) = query adapter os cache (s, insert_each os ob)

  unfoldable pub start_observing : Offset → Action FsuipcException (S × Observed) (Unit {0})
  unfolding start_observing_each
  start_observing o = start_observing_each (o ∷ [])

unfoldable pub stop_observing : Offset → Observed → Observed
stop_observing o ob = record ob { offsets = erase o ob.offsets }

module _ {U : Type 0} (update_eval : Evaluation U) where
  -- The body of the first branch.
  unfoldable pub report : Evaluation (Observed × U)
  unfolding cache
  report val (ob, u) =
      let (_, ob') = cache val ob in let (o, u') = update_eval val u in (o, (ob', u'))

  -- The function that `check_for_updates` passes to the query.
  unfoldable pub check_value : Evaluation (Observed × U)
  unfolding report
  check_value val (ob, u) = elim (find val.offset ob.pending_welcomes) [
    | some _ ↦ report val (ob, u)
    | none ↦ elim (find val.offset ob.values) [
      | none ↦ (undefined, (ob, u))
      | some cached ↦ if cached == val.value then return tt (ob, u) else report val (ob, u)
    ]
  ]

  unfoldable pub check_for_updates :
      {S : Type 0} → UserAdapter S → Action FsuipcException (S × (Observed × U)) (Unit {0})
  unfolding check_value
  check_for_updates adapter (s, (ob, u)) =
      and_then (query adapter (offsets_of ob.offsets) check_value (s, (ob, u)))
        λ _ (s', (ob', u')). return tt (s', (record ob' { pending_welcomes = [] }, u'))
