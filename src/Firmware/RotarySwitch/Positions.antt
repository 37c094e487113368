-- ===== src/Firmware/RotarySwitch/Positions.antt =====
-- The positions that `RotarySwitch` reports.
use open_airbus_cockpit.Prelude.{
  ℕ, suc, ◌<◌, ◌==◌, ◌≡◌, refl, sym, ap, ◌∙◌, arith, ◌⊎◌, inl, inr, Bool-cases, true,
}
use open_airbus_cockpit.Firmware.Button.{Button, Reading, minus_one, check}
use open_airbus_cockpit.Firmware.RotarySwitch.{
  RotarySwitch, no_position, position, num_pos, select, check_position,
}

is_it : (a b : ℕ) → (a == b) ≡ true → a ≡ b
is_it a b h = ground arith

-- The position of a switch, and whether the button of a position was on when it was read last.
abbrev pub pos_of : {U : Type 0} → RotarySwitch U → ℕ
pos_of no_position = minus_one
pos_of (position _ pos _ _) = pos

abbrev pub ButtonOn : {U : Type 0} → (on_state n : ℕ) → RotarySwitch U → Type 0
ButtonOn on_state n no_position = ⊥
ButtonOn on_state n (position parent pos btn _) =
    ((n ≡ num_pos parent) × (btn.state ≡ on_state)) ⊎ ButtonOn on_state n parent

module _ {U : Type 0} (on_state debounce : ℕ) where
  checked_state :
      (r : Reading) (b : Button U) (u : U)
      → (check on_state debounce r (b, u)).0 ≡ (check on_state debounce r (b, u)).1.0.state
  unfolding check
  checked_state r b u = ground arith

  -- `check` returns -1 or one of the positions of the switch, whose number does not change. The position is kept in the
  -- switch, and where there is one its button is on.
  pub check_position_lem :
      (readings : ℕ → Reading) (s : RotarySwitch U) (u : U)
      → (pos : ℕ) × (s' : RotarySwitch U) × (u' : U) × (check_position on_state debounce readings s
            u
          ≡ (pos, (s', u')))
        × (num_pos s' ≡ num_pos s)
        × (pos_of s' ≡ pos)
        × ((pos ≡ minus_one) ⊎ ((pos < num_pos s) × ButtonOn on_state pos s'))
  unfolding check_position
  check_position_lem readings no_position u =
      (minus_one, no_position, u, refl, refl, refl, inl refl)
  check_position_lem readings (position parent prev_pos btn on_select) u =
      let n = num_pos parent in
      let (state, (btn', u')) = check on_state debounce (readings n) (btn, u) in
      elim (Bool-cases (state == on_state)) [
        | inl e ↦ (
          n,
          position parent n btn' on_select,
          select on_state debounce on_select prev_pos n u',
          rw e refl,
          refl,
          refl,
          inr (
            omega arith,
            inl (refl, sym (checked_state (readings n) btn u) ∙ is_it state on_state e),
          ),
        )
        | inr e ↦
            let (below, parent', u'', run, same, kept, which) =
              check_position_lem readings parent u' in
            (
              below,
              position parent' below btn' on_select,
              select on_state debounce on_select prev_pos below u'',
              rw (e, run) refl,
              ap suc same,
              refl,
              elim which [ inl off ↦ inl off | inr (less, on) ↦ inr (omega arith, inr on) ],
            )
      ]
