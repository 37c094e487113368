-- ===== src/Firmware/Button/Debouncing.antt =====
-- What `Button` makes of a series of readings.
use open_airbus_cockpit.Prelude.{
  ℕ, ◌+◌, ◌%◌, ◌≤◌, ◌<◌, ◌==◌, ==_other, ==_iff, Option, none, some, ◌≡◌, ◌≢◌, refl, ap, ◌∙◌, arith,
  if◌then◌else◌, List, [], ◌∷◌, ltb, not, ◌&&◌, Bool, true, false, lt→ltb, le→ltb,
}
use open_airbus_cockpit.Prelude.Words.{u32_mod, sub32}
use open_airbus_cockpit.Firmware.Button.{Button, Reading, call, is_set, toggle, notify, check}

-- Readings that come no more than the debounce time after a mark.
abbrev pub Early : (debounce mark : ℕ) → List Reading → Type 0
Early debounce mark [] = Unit {0}
Early debounce mark (r ∷ rs) = (sub32 r.now mark ≤ debounce) × Early debounce mark rs

and_false : (x : Bool) → (x && false) ≡ false
and_false true = refl
and_false false = refl

module _ {U : Type 0} (on_state debounce : ℕ) where
  -- The checks of a series of readings.
  unfoldable pub check_all : List Reading → Button U × U → Button U × U
  check_all [] c = c
  check_all (r ∷ rs) c = check_all rs (check on_state debounce r c).1

  early_ignored :
      (r : Reading) (b : Button U) (u : U)
      → sub32 r.now b.time_mark ≤ debounce
      → check on_state debounce r (b, u) ≡ (b.state, (b, u))
  unfolding check notify
  early_ignored r b u h =
      ap
        (λ t.
          if t
          then (
            r.pin,
            (record b { state = r.pin; time_mark = r.later }, notify on_state debounce b r.pin u),
          )
          else (b.state, (b, u)))
        (ap (λ t. not (r.pin == b.state) && t) (le→ltb debounce (sub32 r.now b.time_mark) h)
          ∙ and_false (not (r.pin == b.state)))

  -- Whatever the pin does, readings that come no more than the debounce time after the mark change nothing and call no
  -- callback.
  pub bounces_ignored :
      (rs : List Reading) (b : Button U) (u : U)
      → Early debounce b.time_mark rs
      → check_all rs (b, u) ≡ (b, u)
  unfolding check_all
  bounces_ignored [] b u h = refl
  bounces_ignored (r ∷ rs) b u (h, hs) =
      ap (λ c. check_all rs c.1) (early_ignored r b u h) ∙ bounces_ignored rs b u hs

  -- What the callbacks of a button make of the user's state when the pin is found on, and when it is found off.
  told_on :
      (b : Button U) (pin : ℕ) (u : U)
      → (pin == on_state) ≡ true
      → notify on_state debounce b pin u ≡ toggle b.on_toggled 1 (call b.on_pressed u)
  unfolding notify
  told_on b pin u on = rw on (go b.on_pressed b.on_released)
    where
      go :
          (pressed released : Option (U → U))
          → toggle b.on_toggled 1 (
              if is_set pressed && true
              then call pressed u
              else if is_set released && not true
              then call released u
              else u)
            ≡ toggle b.on_toggled 1 (call pressed u)
      go (some f) released = refl
      go none (some g) = refl
      go none none = refl

  told_off :
      (b : Button U) (pin : ℕ) (u : U)
      → (pin == on_state) ≡ false
      → notify on_state debounce b pin u ≡ toggle b.on_toggled 0 (call b.on_released u)
  unfolding notify
  told_off b pin u off = rw off (go b.on_pressed b.on_released)
    where
      go :
          (pressed released : Option (U → U))
          → toggle b.on_toggled 0 (
              if is_set pressed && false
              then call pressed u
              else if is_set released && not false
              then call released u
              else u)
            ≡ toggle b.on_toggled 0 (call released u)
      go (some f) (some g) = refl
      go (some f) none = refl
      go none (some g) = refl
      go none none = refl

  -- A new state of the pin that is read `elapsed` milliseconds after the mark, which are more than the debounce time, is taken
  -- over, also when the clock has wrapped in between: it is returned, and the mark is the time after the callbacks. If the pin is
  -- on, the callback for presses is called and then that for toggles with 1, and if it is off, the callback
  -- for releases and then that for toggles with 0, those that are set; no other is.
  pub change_taken :
      (b : Button U) (u : U) (elapsed pin later : ℕ)
      → b.time_mark < u32_mod
      → elapsed < u32_mod
      → debounce < elapsed
      → pin ≢ b.state
      → (u' : U) × (check on_state debounce
            (record { pin = pin; now = (b.time_mark + elapsed) % u32_mod; later = later })
            (b, u)
          ≡ (pin, (record b { state = pin; time_mark = later }, u')))
        × (pin ≡ on_state → u' ≡ toggle b.on_toggled 1 (call b.on_pressed u))
        × (pin ≢ on_state → u' ≡ toggle b.on_toggled 0 (call b.on_released u))
  unfolding check
  change_taken b u elapsed pin later in_range small late ne =
      let now = (b.time_mark + elapsed) % u32_mod in
      (
        notify on_state debounce b pin u,
        ap
            (λ t.
              if t
              then (
                pin,
                (record b { state = pin; time_mark = later }, notify on_state debounce b pin u),
              )
              else (b.state, (b, u)))
            (ap (λ t. not t && ltb debounce (sub32 now b.time_mark)) (==_other pin b.state ne)
              ∙ lt→ltb debounce (sub32 now b.time_mark) (omega arith)),
        λ on. told_on b pin u ((==_iff pin on_state).1 on),
        λ off. told_off b pin u (==_other pin on_state off),
      )
