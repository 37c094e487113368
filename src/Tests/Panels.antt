-- ===== src/Tests/Panels.antt =====
-- A button, a rotary switch and a keypad of a panel.
use open_airbus_cockpit.Prelude.{
  ℕ, ◌*◌, ◌+◌, ◌≤◌, ◌<◌, ◌≡◌, ◌≢◌, ◌⊎◌, arith, List, [], ◌∷◌, none, some, true, false, ◌==◌, ◌&&◌,
  ◌||◌, if◌then◌else◌,
}
use open_airbus_cockpit.Firmware.Button.{Button, Reading, minus_one, check}
use open_airbus_cockpit.Firmware.Button.Debouncing.{bounces_ignored, check_all, change_taken}
use open_airbus_cockpit.Firmware.RotarySwitch.{
  RotarySwitch, num_pos, new_rotary_switch, check_position,
}
use open_airbus_cockpit.Firmware.RotarySwitch.Positions.{pos_of, ButtonOn, check_position_lem}
use open_airbus_cockpit.Firmware.Keypad.{Controller, Keypad, Pins, is_active, key_of, read_key}
use open_airbus_cockpit.Firmware.Keypad.Keys.{Controls, read_key_lem}

-- A button that is off since shortly before the clock wraps, and logs its presses.
abbrev button : Button (List ℕ)
button = record {
  state = 0;
  time_mark = 0xffffff00;
  on_pressed = some (λ u. 1 ∷ u);
  on_released = none;
  on_toggled = none;
}

abbrev bounce : ℕ → Reading
bounce now = record { pin = 1; now = now; later = now }

abbrev one : ℕ
one = 1

bounces_ignored_example :
    check_all 1 200 (bounce 0xffffff10 ∷ bounce 0xffffff20 ∷ []) (button, []) ≡ (button, [])
bounces_ignored_example =
    bounces_ignored 1 200 (bounce 0xffffff10 ∷ bounce 0xffffff20 ∷ []) button []
      (omega arith, omega arith)

change_taken_example :
    (u : List ℕ) × (check 1 200 (record { pin = 1; now = 0x100; later = 0x101 }) (button, [])
      ≡ (1, (record button { state = 1; time_mark = 0x101 }, u)))
    × (one ≡ 1 → u ≡ 1 ∷ [])
    × (one ≢ 1 → u ≡ [])
change_taken_example =
    change_taken 1 200 button [] 0x200 1 0x101 (omega arith) (omega arith) (omega arith)
      (λ e. omega arith)

-- Two positions, the lower of which is on.
abbrev readings : ℕ → Reading
readings n = record { pin = if n == 0 then 1 else 0; now = 300; later = 300 }

abbrev two_positions : RotarySwitch (List ℕ)
two_positions = new_rotary_switch 2

check_position_lem_example :
    (pos : ℕ) × (s' : RotarySwitch (List ℕ)) × (u' : List ℕ) × (check_position 1 200 readings
        two_positions []
      ≡ (pos, (s', u')))
    × (num_pos s' ≡ num_pos two_positions)
    × (pos_of s' ≡ pos)
    × ((pos ≡ minus_one) ⊎ ((pos < num_pos two_positions) × ButtonOn 1 pos s'))
check_position_lem_example = check_position_lem 1 200 readings two_positions []

-- A keypad of two controllers, of which the second has the key 5.
abbrev keypad : Keypad
keypad = record {
  status = 3;
  bus = record { configured = true; a = 2; b = 3; c = 4; d = 5 };
  controller = record { dav_pin = 6; oe_pin = 7 } ∷ record { dav_pin = 8; oe_pin = 9 } ∷ [];
  last_key = minus_one;
}

abbrev pressed : Pins
pressed none pin = pin == 8
pressed (some i) pin = (i == 1) && ((pin == 2) || (pin == 4))

abbrev released : Pins
released _ _ = false

read_key_lem_example :
    (read_key pressed keypad ≡ minus_one)
    ⊎ ((keypad.bus.configured ≡ true)
        × (i : ℕ) × (c : Controller) × Controls keypad.controller i c
        × (is_active keypad.status i ≡ true)
        × (pressed none c.dav_pin ≡ true)
        × (read_key pressed keypad ≡ key_of pressed keypad.bus i)
        × (i * 16 ≤ read_key pressed keypad)
        × (read_key pressed keypad < i * 16 + 16))
read_key_lem_example = read_key_lem pressed keypad
