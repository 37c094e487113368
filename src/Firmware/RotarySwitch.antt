-- ===== src/Firmware/RotarySwitch.antt =====
-- `RotarySwitch` of arduino/libraries/oacbtn/oacbtn.h: the switch of `NumPos` positions is the data of one position more than
-- its parent. Its object is static, so that a callback that nobody has set is null.
pub mod Positions
use open_airbus_cockpit.Prelude.{
  ℕ, zero, suc, ◌+◌, ◌==◌, not, ◌&&◌, if◌then◌else◌, Bool, true, false, Option, none, some,
}
use open_airbus_cockpit.Firmware.Button.{
  Button, Reading, minus_one, new_button, toggle, is_set, check,
}

pub data RotarySwitch (U : Type 0) : Type 0 where
  no_position : RotarySwitch U
  -- the parent, the position, the button and the callback
  position : RotarySwitch U → ℕ → Button U → Option (ℕ → U → U) → RotarySwitch U

abbrev pub num_pos : {U : Type 0} → RotarySwitch U → ℕ
num_pos no_position = 0
num_pos (position parent _ _ _) = suc (num_pos parent)

unfoldable pub new_rotary_switch : {U : Type 0} → ℕ → RotarySwitch U
unfolding new_button
new_rotary_switch zero = no_position
new_rotary_switch (suc n) = position (new_rotary_switch n) minus_one new_button none

abbrev pub set_on_select : {U : Type 0} → (ℕ → U → U) → RotarySwitch U → RotarySwitch U
set_on_select on_select no_position = no_position
set_on_select on_select (position parent pos btn _) = position parent pos btn (some on_select)

module _ {U : Type 0} (on_state debounce : ℕ) where
  -- What `check` does with the new position.
  unfoldable pub select : Option (ℕ → U → U) → (prev_pos pos : ℕ) → U → U
  select on_select prev_pos pos u =
      if not (pos == minus_one) && not (pos == prev_pos) then toggle on_select pos u else u

  -- The readings are those of the buttons, by their position.
  unfoldable pub check_position : (ℕ → Reading) → RotarySwitch U → U → ℕ × (RotarySwitch U × U)
  unfolding select
  check_position readings no_position u = (minus_one, (no_position, u))
  check_position readings (position parent prev_pos btn on_select) u =
      let n = num_pos parent in
      let (state, (btn', u')) = check on_state debounce (readings n) (btn, u) in
      let (below, (parent', u'')) = check_position readings parent u' in
      if state == on_state
      then (n, (position parent n btn' on_select, select on_select prev_pos n u'))
      else (below, (position parent' below btn' on_select, select on_select prev_pos below u''))
