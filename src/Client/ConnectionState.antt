-- ===== src/Client/ConnectionState.antt =====
-- `connection_state` of flightvars/include/flightvars/client/connection_state.h. Promises are numbered in the order in
-- which they are made; `settled` keeps what their futures have been given: `none` for `set_value`, an exception for
-- `set_exception`. Each member function runs under the mutex, as one step.
pub mod Disconnection
use open_airbus_cockpit.Prelude.{
  ℕ, suc, List, [], ◌∷◌, Bool, true, false, Option, none, some, if◌then◌else◌,
}
use open_airbus_cockpit.Prelude.Maps.{Map, assign, same_number}

pub record ConnectionState (E : Type 0) : Type 0 where
  pub connected : Bool
  pub error : Option E
  pub promises : List ℕ
  pub settled : Map ℕ (Option E)
  pub made : ℕ

module _ {E : Type 0} where
  unfoldable pub create : Bool → ConnectionState E
  create connected = record {
    connected = connected;
    error = none;
    promises = [];
    settled = [];
    made = 0;
  }

  -- The loop over the promises.
  unfoldable pub settle_all : List ℕ → Option E → Map ℕ (Option E) → Map ℕ (Option E)
  settle_all [] outcome settled = settled
  settle_all (p ∷ ps) outcome settled = settle_all ps outcome (assign p outcome settled)

  -- The number of the promise whose future is returned, and the state.
  unfoldable pub disconnection : ConnectionState E → ℕ × ConnectionState E
  disconnection s =
      if s.connected
      then (s.made, record s { promises = s.made ∷ s.promises; made = suc s.made })
      else (s.made, record s { settled = assign s.made s.error s.settled; made = suc s.made })

  pub disconnect : ConnectionState E → ConnectionState E
  unfolding settle_all
  disconnect s =
      if s.connected
      then record s {
        connected = false;
        settled = settle_all s.promises none s.settled;
        promises = [];
      }
      else s

  unfoldable pub disconnect_with_error : E → ConnectionState E → ConnectionState E
  unfolding settle_all
  disconnect_with_error e s =
      if s.connected
      then record s {
        connected = false;
        error = some e;
        settled = settle_all s.promises (some e) s.settled;
        promises = [];
      }
      else s
