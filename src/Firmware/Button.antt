-- ===== src/Firmware/Button.antt =====
-- `Button` of arduino/libraries/oacbtn/oacbtn.h. On the board an `int` has 16 bits, of which -1 is the pattern 0xffff, and a
-- `long` has 32: the time since the mark wraps. What `digitalRead` and the two calls of `millis` return is an argument; the
-- callbacks change a state `U`.
pub mod Debouncing
use open_airbus_cockpit.Prelude.{
  ℕ, ◌==◌, ltb, not, ◌&&◌, if◌then◌else◌, Bool, true, false, Option, none, some,
}
use open_airbus_cockpit.Prelude.Words.{sub32}

abbrev pub minus_one : ℕ
minus_one = 0xffff

pub record Button (U : Type 0) : Type 0 where
  pub state : ℕ
  pub time_mark : ℕ
  pub on_pressed : Option (U → U)
  pub on_released : Option (U → U)
  pub on_toggled : Option (ℕ → U → U)

-- The pin, and the time at the test and at the new mark.
pub record Reading : Type 0 where
  pub pin : ℕ
  pub now : ℕ
  pub later : ℕ

unfoldable pub new_button : {U : Type 0} → Button U
new_button = record {
  state = minus_one;
  time_mark = 0;
  on_pressed = none;
  on_released = none;
  on_toggled = none;
}

-- A call through a pointer that is not null.
abbrev pub call : {U : Type 0} → Option (U → U) → U → U
call none u = u
call (some f) u = f u

abbrev pub is_set : {A : Type 0} → Option A → Bool
is_set none = false
is_set (some _) = true

abbrev pub toggle : {U : Type 0} → Option (ℕ → U → U) → ℕ → U → U
toggle none n u = u
toggle (some f) n u = f n u

module _ {U : Type 0} (on_state debounce : ℕ) where
  -- The callbacks of `check` for a new state.
  unfoldable pub notify : Button U → ℕ → U → U
  notify b new_state u =
      let on = new_state == on_state in
      let called =
        if is_set b.on_pressed && on
        then call b.on_pressed u
        else if is_set b.on_released && not on
        then call b.on_released u
        else u in
      toggle b.on_toggled (if on then 1 else 0) called

  -- The test of `check`.
  abbrev pub accepts : Reading → Button U → Bool
  accepts r b = not (r.pin == b.state) && ltb debounce (sub32 r.now b.time_mark)

  unfoldable pub check : Reading → Button U × U → ℕ × (Button U × U)
  unfolding notify
  check r (b, u) =
      if accepts r b
      then (r.pin, (record b { state = r.pin; time_mark = r.later }, notify b r.pin u))
      else (b.state, (b, u))
