-- ===== src/Firmware/Keypad/Keys.antt =====
-- The keys that `Keypad` reads.
use open_airbus_cockpit.Prelude.{
  ℕ, ◌+◌, ◌*◌, ◌≤◌, ◌<◌, ◌≡◌, refl, sym, ap, subst, ◌∙◌, arith, ◌⊎◌, inl, inr, Bool-cases, Bool,
  true, false, ◌&&◌, if◌then◌else◌, List, [], ◌∷◌, none, some,
}
use open_airbus_cockpit.Firmware.Button.{minus_one}
use open_airbus_cockpit.Firmware.Keypad.{
  Controller, Bus, Keypad, Pins, is_active, bit, key_of, scan, read_key,
}

both : (x y : Bool) → (x && y) ≡ true → (x ≡ true) × (y ≡ true)
both true true h = (refl, refl)
both true false h = absurd cc
both false y h = absurd cc

bit_small : (level : Bool) → bit level ≤ 1
bit_small true = omega arith
bit_small false = omega arith

key_of_range :
    (pins : Pins) (bus : Bus) (i : ℕ)
    → (i * 16 ≤ key_of pins bus i) × (key_of pins bus i < i * 16 + 16)
unfolding key_of
key_of_range pins bus i =
    let ha = bit_small (pins (some i) bus.a) in
    let hb = bit_small (pins (some i) bus.b) in
    let hc = bit_small (pins (some i) bus.c) in
    let hd = bit_small (pins (some i) bus.d) in (omega arith, omega arith)

-- The controller at a place of the array.
abbrev pub Controls : List Controller → ℕ → Controller → Type 0
Controls [] i c = ⊥
Controls (x ∷ xs) i c = ((i ≡ 0) × (c ≡ x)) ⊎ ((j : ℕ) × (i ≡ j + 1) × Controls xs j c)

-- What the loop finds from a controller on.
record Found (pins : Pins) (k : Keypad) (i : ℕ) (cs : List Controller) : Type 0 where
  place : ℕ
  there : Controller
  controls : Controls cs place there
  active : is_active k.status (i + place) ≡ true
  available : pins none there.dav_pin ≡ true
  key : scan pins k i cs ≡ key_of pins k.bus (i + place)

scan_step :
    (pins : Pins) (k : Keypad) (i : ℕ) (c : Controller) (cs : List Controller) (b : Bool)
    → (is_active k.status i && pins none c.dav_pin) ≡ b
    → scan pins k i (c ∷ cs) ≡ (if b then key_of pins k.bus i else scan pins k (i + 1) cs)
unfolding scan
scan_step pins k i c cs b e = ap (λ t. if t then key_of pins k.bus i else scan pins k (i + 1) cs) e

scan-Found :
    (pins : Pins) (k : Keypad) (i : ℕ) (cs : List Controller)
    → (scan pins k i cs ≡ minus_one) ⊎ Found pins k i cs
unfolding scan
scan-Found pins k i [] = inl refl
scan-Found pins k i (c ∷ cs) =
    let step = scan_step pins k i c cs in
    elim (Bool-cases (is_active k.status i && pins none c.dav_pin)) [
      | inl e ↦
          let (active, available) = both (is_active k.status i) (pins none c.dav_pin) e in
          inr (record {
            place = 0;
            there = c;
            controls = inl (refl, refl);
            active = ap (is_active k.status) (omega arith) ∙ active;
            available = available;
            key = step true e ∙ ap (key_of pins k.bus) (omega arith);
          })
      | inr e ↦ elim (scan-Found pins k (i + 1) cs) [
        | inl h ↦ inl (step false e ∙ h)
        | inr f ↦
            let same : i + 1 + f.place ≡ i + (f.place + 1) = omega arith in
            inr (record {
              place = f.place + 1;
              there = f.there;
              controls = inr (f.place, refl, f.controls);
              active = ap (is_active k.status) (sym same) ∙ f.active;
              available = f.available;
              key = step false e ∙ f.key ∙ ap (key_of pins k.bus) same;
            })
      ]
    ]

-- `readKey` returns -1, or the bus is configured and the key is one of the sixteen of a controller of the array that
-- has been configured and whose data is available; it is the number on the bus while that controller has it.
pub read_key_lem :
    (pins : Pins) (k : Keypad)
    → (read_key pins k ≡ minus_one)
      ⊎ ((k.bus.configured ≡ true)
          × (i : ℕ) × (c : Controller) × Controls k.controller i c
          × (is_active k.status i ≡ true)
          × (pins none c.dav_pin ≡ true)
          × (read_key pins k ≡ key_of pins k.bus i)
          × (i * 16 ≤ read_key pins k)
          × (read_key pins k < i * 16 + 16))
unfolding read_key
read_key_lem pins k = elim (Bool-cases k.bus.configured) [
  | inr off ↦ inl (ap (λ b. if b then scan pins k 0 k.controller else minus_one) off)
  | inl on ↦
      let scanned = ap (λ b. if b then scan pins k 0 k.controller else minus_one) on in
      elim (scan-Found pins k 0 k.controller) [
        | inl h ↦ inl (scanned ∙ h)
        | inr f ↦
            let (low, high) = key_of_range pins k.bus f.place in
            let same : 0 + f.place ≡ f.place = omega arith in
            let key : read_key pins k ≡ key_of pins k.bus f.place =
              scanned ∙ f.key ∙ ap (key_of pins k.bus) same in
            inr (
              on,
              f.place,
              f.there,
              f.controls,
              ap (is_active k.status) (sym same) ∙ f.active,
              f.available,
              key,
              subst (λ n. f.place * 16 ≤ n) (sym key) low,
              subst (λ n. n < f.place * 16 + 16) (sym key) high,
            )
      ]
]
