-- ===== src/Firmware/Keypad.antt =====
-- `Keypad` of arduino/libraries/oackb/oackb.h. A `short` is its 16-bit pattern; -1 is 0xffff. What a pin reads is a function of
-- the pin and of the controller that has the bus, if any; a level is true where it is HIGH. Setting the modes of pins
-- is left out.
pub mod Keys
use open_airbus_cockpit.Prelude.{
  ℕ, zero, suc, ◌+◌, ◌*◌, ◌/◌, ◌%◌, ◌^◌, ◌==◌, ltb, leb, not, ◌&&◌, ◌||◌, if◌then◌else◌, Bool, true,
  false, List, [], ◌∷◌, Option, none, some, Outcome, ok, undefined,
}
use open_airbus_cockpit.Exception.{Result}
use open_airbus_cockpit.Firmware.Button.{minus_one}

pub record Controller : Type 0 where
  pub dav_pin : ℕ
  pub oe_pin : ℕ

pub record Bus : Type 0 where
  pub configured : Bool
  pub a : ℕ
  pub b : ℕ
  pub c : ℕ
  pub d : ℕ

pub record Keypad : Type 0 where
  pub status : ℕ
  pub bus : Bus
  pub controller : List Controller
  pub last_key : ℕ

abbrev pub is_negative : ℕ → Bool
is_negative n = leb 0x8000 n

unfoldable pub config_bus : (a b c d : ℕ) → Keypad → Bool × Keypad
config_bus a b c d k =
    if is_negative a || is_negative b || is_negative c || is_negative d
    then (false, k)
    else (true, record k { bus = record { configured = true; a = a; b = b; c = c; d = d } })

-- `firstPin + 1` and so on are of type `int` and become `short` again.
unfoldable pub config_bus_from : ℕ → Keypad → Bool × Keypad
unfolding config_bus
config_bus_from p = config_bus p ((p + 1) % 2 ^ 16) ((p + 2) % 2 ^ 16) ((p + 3) % 2 ^ 16)

-- An assignment to an element of the array, which is undefined outside of it.
abbrev pub set_controller : ℕ → Controller → List Controller → Option (List Controller)
set_controller i c [] = none
set_controller zero c (x ∷ xs) = some (c ∷ xs)
set_controller (suc i) c (x ∷ xs) = elim (set_controller i c xs) [
  | none ↦ none
  | some ys ↦ some (x ∷ ys)
]

-- Whether the bit of a controller is set in the status.
abbrev pub is_active : ℕ → ℕ → Bool
is_active status i = status / 2 ^ i % 2 == 1

-- `status |= (1 << index)`, in a byte.
abbrev pub activate : ℕ → ℕ → ℕ
activate index status =
    if is_active status index then status % 2 ^ 8 else (status + 2 ^ index) % 2 ^ 8

unfoldable pub config_controller : (index dav oe : ℕ) → Keypad → Result (Bool × Keypad)
config_controller index dav oe k =
    if ltb 8 index || is_negative dav || is_negative oe
    then ok (false, k)
    else elim (set_controller index (record { dav_pin = dav; oe_pin = oe }) k.controller) [
      | none ↦ undefined
      | some cs ↦ ok (true, record k { status = activate index k.status; controller = cs })
    ]

-- The pins, with the controller whose output is enabled.
abbrev pub Pins : Type 0
Pins = Option ℕ → ℕ → Bool

abbrev pub bit : Bool → ℕ
bit level = if level then 1 else 0

-- The four lines of the bus are different bits, so that `|=` adds them.
unfoldable pub key_of : Pins → Bus → ℕ → ℕ
key_of pins bus i =
    bit (pins (some i) bus.a)
    + 2 * bit (pins (some i) bus.b)
    + 4 * bit (pins (some i) bus.c)
    + 8 * bit (pins (some i) bus.d)
    + i * 0x10

-- The loop of `readKey`.
unfoldable pub scan : Pins → Keypad → ℕ → List Controller → ℕ
unfolding key_of
scan pins k i [] = minus_one
scan pins k i (c ∷ cs) =
    if is_active k.status i && pins none c.dav_pin
    then key_of pins k.bus i
    else scan pins k (i + 1) cs

unfoldable pub read_key : Pins → Keypad → ℕ
unfolding scan
read_key pins k = if k.bus.configured then scan pins k 0 k.controller else minus_one

unfoldable pub read_key_type : Pins → Keypad → ℕ × Keypad
unfolding read_key
read_key_type pins k =
    let key = read_key pins k in
    (
      if is_negative key && not (is_negative k.last_key) then k.last_key else minus_one,
      record k { last_key = key },
    )
