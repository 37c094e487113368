-- ===== src/Tests/Databases.antt =====
-- The subscription database with the entries of two variables.
use open_airbus_cockpit.Prelude.{
  ℕ, ◌≡◌, ◌≢◌, refl, arith, Bool, List, [], ◌∷◌, ok, throws, undefined, and_then, Action, return,
}
use open_airbus_cockpit.Prelude.Maps.{find, erase, assign, same_number, same_string}
use open_airbus_cockpit.Subscription.{make_subscription_id}
use open_airbus_cockpit.Var.Types.{VariableId, same_variable, byte}
use open_airbus_cockpit.Var.Value.{VariableValue}
use open_airbus_cockpit.Var.Value.Laws.{value_of}
use open_airbus_cockpit.Client.SubscriptionDb.{
  DbException, variable_already_exists_error, master_subscription_already_exists_error,
  SubscriptionDb, Entry, create_entry, add_virtual_subscription, remove_if,
  remove_virtual_subscription, master_of_variable, master_of_virtual, handlers_of, invoke_handlers,
}
use open_airbus_cockpit.Client.SubscriptionDb.Sound.{Sound, Entered, empty-Sound}
use open_airbus_cockpit.Client.SubscriptionDb.Entries.{
  new_entry, opened, opened-Entered, opened-Sound,
}
use open_airbus_cockpit.Client.SubscriptionDb.LastRemoval.{Left, remove_virtual_subscription_lem}
use open_airbus_cockpit.Client.SubscriptionDb.Additions.{
  added, with_added, with_added-Sound, with_added-Entered, create_entry_lem,
  add_virtual_subscription_lem,
}
use open_airbus_cockpit.Client.SubscriptionDb.Calls.{call, remove_subscription, call-Sound}
use open_airbus_cockpit.Tests.Mappings.{speed, height, height-speed}

abbrev pub no_entries : SubscriptionDb ℕ
no_entries = record {
  var_id_map = [];
  master_subs_id_map = [];
  virtual_subs_id_map = [];
  entries = [];
  next_entry = 1;
  next_id = 10;
}

-- The entry of `speed`, with one subscription.
abbrev speed_entry : Entry ℕ
speed_entry = record (new_entry speed 7) { virtual_subs = added 3 (new_entry speed 7) no_entries }

abbrev one_entry : SubscriptionDb ℕ
one_entry = with_added 3 1 (new_entry speed 7) (opened speed 7 no_entries)

one_entry-Sound : Sound one_entry
unfolding find make_subscription_id
one_entry-Sound =
    with_added-Sound 3 1 (new_entry speed 7) (opened speed 7 no_entries)
      (opened-Sound speed 7 no_entries (empty-Sound 1 10) refl refl)
      (opened-Entered speed 7 no_entries) refl

one_entry-Entered : Entered one_entry 1 speed_entry
one_entry-Entered =
    with_added-Entered 3 1 (new_entry speed 7) (opened speed 7 no_entries)
      (opened-Entered speed 7 no_entries)

-- The entry of `height` as well, without subscriptions.
abbrev two_entries : SubscriptionDb ℕ
two_entries = opened height 8 one_entry

two_entries-Sound : Sound two_entries
unfolding find assign erase make_subscription_id
two_entries-Sound = opened-Sound height 8 one_entry one_entry-Sound refl refl

abbrev pub logs : ℕ → VariableId → VariableValue → Action DbException (List ℕ) (Unit {0})
logs h v a l = return tt (h ∷ l)

create_entry_lem_example :
    (db : SubscriptionDb ℕ) × (create_entry speed 7 3 no_entries ≡ (ok 10, db))
    × (master_of_variable speed db ≡ (ok 7, db))
    × (master_of_virtual 10 db ≡ (ok 7, db))
    × (handlers_of 7 db ≡ (ok (speed, record { id = 10; handler = 3 } ∷ []), db))
    × (create_entry speed 8 4 db ≡ (throws (variable_already_exists_error speed), db))
    × (create_entry height 7 4 db ≡ (throws (master_subscription_already_exists_error 7), db))
    × Sound db
unfolding find make_subscription_id
create_entry_lem_example =
    create_entry_lem speed height 7 8 3 4 no_entries (empty-Sound 1 10) refl refl refl height-speed
      refl

add_virtual_subscription_lem_example :
    (db : SubscriptionDb ℕ) × (add_virtual_subscription speed 5 one_entry ≡ (ok 11, db))
    × (master_of_virtual 11 db ≡ (ok 7, db))
    × (invoke_handlers logs 7 (value_of byte 1 3) db []
        ≡ and_then
            (invoke_handlers logs 7 (value_of byte 1 3) one_entry [])
            (λ _. logs 5 speed (value_of byte 1 3)))
    × Sound db
unfolding find assign erase make_subscription_id
add_virtual_subscription_lem_example =
    add_virtual_subscription_lem logs 5 1 speed_entry (value_of byte 1 3) [] one_entry
      one_entry-Sound one_entry-Entered refl

remove_virtual_subscription_lem_example :
    (b : Bool) × (db : SubscriptionDb ℕ) × (remove_virtual_subscription 10 one_entry ≡ (ok b, db))
    × Left 10 1 speed_entry one_entry b db
unfolding find assign erase make_subscription_id remove_if
remove_virtual_subscription_lem_example =
    remove_virtual_subscription_lem 10 1 speed_entry one_entry one_entry-Sound refl
      one_entry-Entered (omega arith)

call-Sound_example :
    ((call (remove_subscription 10) two_entries).0 ≢ undefined)
    × Sound (call (remove_subscription 10) two_entries).1
unfolding find assign erase make_subscription_id
call-Sound_example = call-Sound (remove_subscription 10) two_entries two_entries-Sound refl
