-- ===== src/Tests/Disconnections.antt =====
-- A connection that is asked about twice, fails with the error 7, and is asked about again.
use open_airbus_cockpit.Prelude.{ℕ, ◌≡◌, refl, arith, some, true}
use open_airbus_cockpit.Prelude.Maps.{find, erase, assign, same_number}
use open_airbus_cockpit.Client.ConnectionState.{
  ConnectionState, create, settle_all, disconnection, disconnect_with_error,
}
use open_airbus_cockpit.Client.ConnectionState.Disconnection.{
  Steps, stay, then_step, asks, fails, disconnection_told,
}

abbrev waiting : ConnectionState ℕ
waiting = (disconnection (disconnection (create true)).1).1

abbrev failed : ConnectionState ℕ
failed = (disconnection (disconnect_with_error 7 waiting)).1

abbrev asked_twice : Steps (create true) waiting
asked_twice = then_step (then_step stay asks) asks

abbrev asked_again : Steps (create true) failed
asked_again = then_step (then_step asked_twice (fails 7)) asks

disconnection_told_example : find 1 failed.settled ≡ some (some 7)
unfolding create disconnection disconnect_with_error settle_all find assign erase
disconnection_told_example =
    disconnection_told true failed 1 (some 7) asked_again refl (omega arith)
