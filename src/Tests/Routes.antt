-- ===== src/Tests/Routes.antt =====
-- The core with two masters.
use open_airbus_cockpit.Prelude.{ℕ, suc, ◌≡◌, refl, arith, List, [], ◌∷◌, some, ok, throws}
use open_airbus_cockpit.Prelude.Maps.{find, erase, assign, same_number, same_string}
use open_airbus_cockpit.Exception.{no_such_subscription_error}
use open_airbus_cockpit.Var.Types.{VariableId}
use open_airbus_cockpit.Core.{
  FlightVars, Core, new_core, get_master_by_var_id, get_master_by_subs_id, register_group_master,
  subscribe, unsubscribe,
}
use open_airbus_cockpit.Core.Routing.{subscribe_routes, unsubscribe_forgets}
use open_airbus_cockpit.Core.Traces.{
  Steps, stay, then_step, registers, subscribes, routes_registered,
}

-- The masters count the identifiers that they give out.
abbrev counting : FlightVars ℕ ℕ
counting = record {
  subscribe = λ master var handler n. (ok n, suc n);
  unsubscribe = λ master id n. (ok tt, n);
  update = λ master id value n. (ok tt, n);
}

abbrev speed : VariableId
speed = record { group = 97 ∷ []; name = 98 ∷ [] }

abbrev with_master : Core ℕ
with_master = record { group_masters = (97 ∷ [], 1) ∷ []; subscriptions = []; masters = 5 }

abbrev with_route : Core ℕ
with_route = record { group_masters = (97 ∷ [], 1) ∷ []; subscriptions = (5, 1) ∷ []; masters = 6 }

subscribe_routes_example :
    (c : Core ℕ) × (subscribe counting speed 0 with_master ≡ (ok 5, c))
    × (get_master_by_subs_id 5 c ≡ some 1)
    × (get_master_by_subs_id 4 c ≡ get_master_by_subs_id 4 with_master)
    × (c.group_masters ≡ with_master.group_masters)
    × (c.masters ≡ 6)
unfolding find
subscribe_routes_example =
    subscribe_routes counting with_master speed 0 1 5 4 6 refl refl (λ e. absurd (omega arith))

unsubscribe_forgets_example :
    (c : Core ℕ) × (unsubscribe counting 5 with_route ≡ (ok tt, c))
    × (unsubscribe counting 5 c ≡ (throws (no_such_subscription_error 5), c))
    × (get_master_by_subs_id 4 c ≡ get_master_by_subs_id 4 with_route)
    × (c.group_masters ≡ with_route.group_masters)
    × (c.masters ≡ 6)
unfolding find get_master_by_subs_id
unsubscribe_forgets_example =
    unsubscribe_forgets counting with_route 1 5 4 6 refl refl (λ e. absurd (omega arith))

-- A registration and a subscription.
abbrev registered : Core ℕ
registered = (register_group_master (97 ∷ []) 1 (new_core 5)).1

abbrev subscribed : Core ℕ
subscribed = (subscribe counting speed 0 registered).1

calls : Steps counting (new_core 5) subscribed
calls = then_step (then_step stay (registers (97 ∷ []) 1)) (subscribes speed 0)

routes_registered_example : (grp : List ℕ) × (find grp subscribed.group_masters ≡ some 1)
unfolding find assign erase get_master_by_subs_id get_master_by_var_id subscribe
    register_group_master
routes_registered_example = routes_registered counting 5 subscribed 5 1 calls refl
