-- ===== src/Tests/Offsets.antt =====
-- The FSUIPC master on a dummy adapter of eight bytes.
use open_airbus_cockpit.Prelude.{
  ℕ, ◌+◌, ◌-◌, ◌*◌, ◌≤◌, ◌<◌, ◌==◌, leb, ◌&&◌, if◌then◌else◌, ◌≡◌, ◌≢◌, ◌⊎◌, inl, refl, arith, List,
  [], ◌∷◌, ◌++◌, length, Option, none, some, ok, throws, Action, true, false, return,
}
use open_airbus_cockpit.Prelude.Maps.{find, same_number, same_string}
use open_airbus_cockpit.Exception.{no_such_subscription_error}
use open_airbus_cockpit.Var.Types.{VariableId, word}
use open_airbus_cockpit.Var.Value.{VariableValue}
use open_airbus_cockpit.Var.Value.Laws.{value_of, as_word_lem}
use open_airbus_cockpit.Fsuipc.Offset.{
  Offset, OffsetLength-discrete, same_offset, offset_len_word, ValuedOffset, FsuipcException,
  db_no_such_subscription_error, raised,
}
use open_airbus_cockpit.Fsuipc.Client.{read_each, read_values}
use open_airbus_cockpit.Fsuipc.DummyAdapter.{
  DummyAdapter, dummy_user_adapter, schedule_read, process, write_requested, read_requested,
  element, read_value_from_buffer, write_value_to_buffer,
}
use open_airbus_cockpit.Fsuipc.DummyAdapter.Memory.{write_value_read_value}
use open_airbus_cockpit.Fsuipc.UpdateObserver.{Observed, Evaluation, check_for_updates}
use open_airbus_cockpit.Fsuipc.UpdateObserver.Tracking.{Tracked}
use open_airbus_cockpit.Fsuipc.UpdateObserver.Checks.{
  check_for_updates_tracks, same_values_unreported,
}
use open_airbus_cockpit.Fsuipc.Names.{
  Boost, var_group_tag, first_of, to_offset_length, parse_offset, offset_of_parts, to_fsuipc_offset,
}
use open_airbus_cockpit.Fsuipc.OffsetDb.{
  OffsetDb, Handlers, SubscriptionMeta, handlers_at, create_subscription, remove_subscription,
  has_subscription, offset_with, get_offset_for_subscription, get_subscriptions_for_offset,
}
use open_airbus_cockpit.Fsuipc.OffsetDb.Subscriptions.{
  All, IsReordering, create_subscription_lem, remove_subscription_lem,
}
use open_airbus_cockpit.Fsuipc.Master.{
  Master, to_fsuipc_offset_value, known_offset, unsubscribe, update,
}
use open_airbus_cockpit.Fsuipc.Master.Values.{idle, on_dummy, update_written}
use open_airbus_cockpit.Fsuipc.Master.Unsubscribing.{unsubscribe_lem}

-- The functions of Boost on texts of digits.
abbrev put_first : ℕ → List (List ℕ) → List (List ℕ)
put_first c [] = (c ∷ []) ∷ []
put_first c (part ∷ parts) = (c ∷ part) ∷ parts

abbrev split_text : List ℕ → List (List ℕ)
split_text [] = [] ∷ []
split_text (c ∷ cs) = let parts = split_text cs in if c == 58 then [] ∷ parts else put_first c parts

abbrev digits : ℕ → List ℕ → Option ℕ
digits n [] = some n
digits n (c ∷ cs) =
    let rest = digits (10 * n + (c - 48)) cs in if leb 48 c && leb c 57 then rest else none

abbrev decimal : ℕ → List ℕ → Option ℕ
decimal bits [] = none
decimal bits (c ∷ cs) = digits 0 (c ∷ cs)

abbrev boost : Boost
boost = record { split = split_text; lexical_cast = decimal; to_lower_copy = λ s. s }

-- The variable `2:2`.
abbrev altitude : VariableId
altitude = record { group = var_group_tag; name = 50 ∷ 58 ∷ 50 ∷ [] }

abbrev at_two : Offset
at_two = record { address = 2; length = offset_len_word }

altitude-named : to_fsuipc_offset boost altitude ≡ ok at_two
unfolding to_fsuipc_offset offset_of_parts parse_offset first_of to_offset_length
altitude-named = refl

abbrev memory : List ℕ
memory = 1 ∷ 2 ∷ 3 ∷ 4 ∷ 5 ∷ 6 ∷ 7 ∷ 8 ∷ []

write_value_read_value_example :
    (buffer' : List ℕ) × (write_value_to_buffer 2 offset_len_word 0x12345 memory ≡ (ok tt, buffer'))
    × (read_value_from_buffer 2 offset_len_word buffer' ≡ ok 0x2345)
    × (length buffer' ≡ 8)
    × ((j : ℕ) → (j < 2) ⊎ (4 ≤ j) → element buffer' j ≡ element memory j)
write_value_read_value_example =
    write_value_read_value 2 offset_len_word 0x12345 memory (omega arith)

-- A database with two subscriptions of that offset.
abbrev subscription : ℕ → SubscriptionMeta ℕ
subscription id = record { var_id = altitude; handler = 7; subs_id = id }

abbrev two_subscriptions : OffsetDb ℕ
two_subscriptions = record {
  known_offsets = at_two ∷ [];
  offset_handlers = (at_two, subscription 1 ∷ subscription 2 ∷ []) ∷ [];
  next_id = 3;
}

first_found : get_offset_for_subscription 1 two_subscriptions ≡ ok at_two
unfolding get_offset_for_subscription offset_with has_subscription
first_found = refl

abbrev one : ℕ
one = 1

abbrev two : ℕ
two = 2

remove_subscription_lem_example :
    (get_offset_for_subscription 1 (remove_subscription 1 two_subscriptions)
      ≡ throws (db_no_such_subscription_error 1))
    × (two ≢ one
        → get_offset_for_subscription 2 (remove_subscription 1 two_subscriptions)
          ≡ get_offset_for_subscription 2 two_subscriptions)
remove_subscription_lem_example = remove_subscription_lem 1 2 two_subscriptions

-- A map whose first two entries change places.
abbrev turned : Handlers ℕ → Handlers ℕ
turned [] = []
turned (x ∷ []) = x ∷ []
turned ((o, a) ∷ (p, b) ∷ m) = elim (same_offset o p) [
  | yes _ ↦ (o, a) ∷ (p, b) ∷ m
  | no _ ↦ (p, b) ∷ (o, a) ∷ m
]

turned-same : (o : Offset) (m : Handlers ℕ) → find o (turned m) ≡ find o m
unfolding find
turned-same o [] = refl
turned-same o (x ∷ []) = refl
turned-same o ((p, a) ∷ (q, b) ∷ m) = ground arith

turned-All :
    (P : Offset → List (SubscriptionMeta ℕ) → Type 0) (m : Handlers ℕ) → All P m → All P (turned m)
turned-All P [] h = h
turned-All P (x ∷ []) h = h
turned-All P ((o, a) ∷ (p, b) ∷ m) (here, (next, rest)) =
    elim (same_offset o p)
      as (λ d. All P (elim d [ yes _ ↦ (o, a) ∷ (p, b) ∷ m | no _ ↦ (p, b) ∷ (o, a) ∷ m ])) [
        | yes _ ↦ (here, (next, rest))
        | no _ ↦ (next, (here, rest))
      ]

turned-IsReordering : IsReordering turned
turned-IsReordering = record { find-same = turned-same; no_other = turned-All }

-- A database with a subscription of another offset.
abbrev at_four : Offset
at_four = record { address = 4; length = offset_len_word }

abbrev elsewhere : OffsetDb ℕ
elsewhere = record {
  known_offsets = at_four ∷ [];
  offset_handlers = (at_four, subscription 1 ∷ []) ∷ [];
  next_id = 3;
}

elsewhere-unused :
    get_offset_for_subscription 3 elsewhere ≡ throws (db_no_such_subscription_error 3)
unfolding get_offset_for_subscription offset_with has_subscription
elsewhere-unused = refl

create_subscription_lem_example :
    (subs : SubscriptionMeta ℕ) × (db' : OffsetDb ℕ) × (create_subscription boost turned altitude 9
        elsewhere
      ≡ (ok subs, db'))
    × (subs.subs_id ≡ 3)
    × (db'.next_id ≡ 4)
    × (get_offset_for_subscription subs.subs_id db' ≡ ok at_two)
    × (get_subscriptions_for_offset at_two db'
        ≡ ok (handlers_at (find at_two elsewhere.offset_handlers) ++ (subs ∷ [])))
    × ((p : Offset)
        → p ≢ at_two
        → get_subscriptions_for_offset p db' ≡ get_subscriptions_for_offset p elsewhere)
create_subscription_lem_example =
    create_subscription_lem boost turned altitude 9 at_two elsewhere turned-IsReordering
      altitude-named elsewhere-unused

-- An observer of that offset, for which a welcome is pending, and one that has its value.
abbrev welcoming : Observed
welcoming = record {
  offsets = (at_two, tt) ∷ [];
  pending_welcomes = (at_two, tt) ∷ [];
  values = [];
}

abbrev waiting : Observed
waiting = record {
  offsets = (at_two, tt) ∷ [];
  pending_welcomes = [];
  values = (at_two, 0x0403) ∷ [];
}

abbrev read_back : ValuedOffset
read_back = record { offset = at_two; value = 0x0403 }

abbrev logged : Evaluation (List ℕ)
logged v u = return tt (v.value ∷ u)

memory-read :
    read_values dummy_user_adapter (at_two ∷ []) (idle memory) ≡ (ok (read_back ∷ []), idle memory)
unfolding read_values read_each schedule_read process write_requested read_requested
    read_value_from_buffer
memory-read = refl

welcoming-Tracked : Tracked welcoming
unfolding find OffsetLength-discrete
welcoming-Tracked = (inl refl, tt)

check_for_updates_tracks_example :
    (s'' : DummyAdapter) × (ob' : Observed) × (u' : List ℕ) × (check_for_updates logged
        dummy_user_adapter
        (idle memory, (welcoming, []))
      ≡ (ok tt, (s'', (ob', u'))))
    × (ob'.offsets ≡ welcoming.offsets)
    × (ob'.pending_welcomes ≡ [])
    × Tracked ob'
check_for_updates_tracks_example =
    check_for_updates_tracks logged (λ v u. (v.value ∷ u, refl)) dummy_user_adapter (idle memory)
      (idle memory) welcoming [] (read_back ∷ []) welcoming-Tracked memory-read refl

waiting-known : find at_two waiting.values ≡ some 0x0403
unfolding find OffsetLength-discrete
waiting-known = refl

waiting-none : find at_two waiting.pending_welcomes ≡ none
unfolding find OffsetLength-discrete
waiting-none = refl

same_values_unreported_example :
    (s'' : DummyAdapter) × (check_for_updates logged dummy_user_adapter (idle memory, (waiting, []))
      ≡ (ok tt, (s'', (record waiting { pending_welcomes = [] }, []))))
same_values_unreported_example =
    same_values_unreported logged dummy_user_adapter (idle memory) (idle memory) waiting []
      (read_back ∷ []) memory-read refl (waiting-none, waiting-known, tt)

-- A master that observes the offset for both subscriptions; its users keep the values.
abbrev call : ℕ → VariableId → VariableValue → Action FsuipcException (List ℕ) (Unit {0})
call h _ _ u = return tt (h ∷ u)

abbrev truncate : ℕ → Option ℕ
truncate _ = none

abbrev master : Master DummyAdapter ℕ (List ℕ)
master = record { db = two_subscriptions; client = idle memory; observed = waiting; user = [] }

abbrev new_altitude : VariableValue
new_altitude = value_of word 2 0x0a0b

new_altitude-number : to_fsuipc_offset_value truncate new_altitude ≡ ok 0x0a0b
unfolding to_fsuipc_offset_value
new_altitude-number = rw (as_word_lem 0x0a0b (omega arith)) refl

update_written_example :
    (buffer' : List ℕ) × (update (on_dummy boost turned truncate call) 1 new_altitude master
      ≡ (ok tt, record master { client = idle buffer' }))
    × (read_value_from_buffer 2 offset_len_word buffer' ≡ ok 0x0a0b)
    × (length buffer' ≡ 8)
update_written_example =
    update_written boost turned truncate call 1 0x0a0b new_altitude at_two memory master first_found
      new_altitude-number refl (omega arith)

unsubscribe_lem_example :
    (m' : Master DummyAdapter ℕ (List ℕ)) × (unsubscribe
        (on_dummy boost turned truncate call)
        1
        master
      ≡ (ok tt, m'))
    × (m'.db ≡ remove_subscription 1 two_subscriptions)
    × (unsubscribe (on_dummy boost turned truncate call) 1 m'
        ≡ (throws (raised (no_such_subscription_error 1)), m'))
    × (known_offset at_two m'.db.known_offsets ≡ false → find at_two m'.observed.offsets ≡ none)
    × (known_offset at_two m'.db.known_offsets ≡ true → m'.observed ≡ waiting)
    × (m'.client ≡ idle memory)
    × (m'.user ≡ [])
unsubscribe_lem_example =
    unsubscribe_lem (on_dummy boost turned truncate call) 1 at_two master first_found
