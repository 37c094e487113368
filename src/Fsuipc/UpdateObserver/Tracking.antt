-- ===== src/Fsuipc/UpdateObserver/Tracking.antt =====
-- `check_for_updates` dereferences the cached value of an offset that no welcome is pending for: it always finds one.
use open_airbus_cockpit.Prelude.{
  ℕ, ◌==◌, if◌then◌else◌, ◌≡◌, refl, ap, ◌∙◌, ◌⊎◌, inl, inr, Bool-cases, Option-cases, List, [],
  ◌∷◌, map, none, some, ok, and_then-ok, return,
}
use open_airbus_cockpit.Prelude.Maps.{find, assign, find-assign_same, find-assign_other}
use open_airbus_cockpit.Fsuipc.Offset.{Offset, same_offset, ValuedOffset}
use open_airbus_cockpit.Fsuipc.Client.{evaluate_each}
use open_airbus_cockpit.Fsuipc.UpdateObserver.{
  Observed, Evaluation, offsets_of, cache, report, check_value,
}

-- A predicate on every element of a list.
abbrev pub Each : (Offset → Type 0) → List Offset → Type 0
Each P [] = Unit {0}
Each P (o ∷ os) = P o × Each P os

pub Each-mono :
    {P Q : Offset → Type 0}
    → ((o : Offset) → P o → Q o)
    → (os : List Offset) → Each P os
    → Each Q os
Each-mono f [] h = tt
Each-mono f (o ∷ os) (p, h) = (f o p, Each-mono f os h)

abbrev pub Cached : Observed → Offset → Type 0
Cached ob o = (v : ℕ) × (find o ob.values ≡ some v)

abbrev pub Welcome : Observed → Offset → Type 0
Welcome ob o = find o ob.pending_welcomes ≡ some tt

-- Every observed offset has a pending welcome or a cached value.
abbrev pub Tracked : Observed → Type 0
Tracked ob = Each (λ o. Welcome ob o ⊎ Cached ob o) (offsets_of ob.offsets)

-- What a step of the check leaves.
pub record Kept (ob ob' : Observed) : Type 0 where
  pub offsets : ob'.offsets ≡ ob.offsets
  pub pending : ob'.pending_welcomes ≡ ob.pending_welcomes
  pub cached : (o : Offset) → Cached ob o → Cached ob' o

assign-Cached :
    (ob : Observed) (p o : Offset) (v : ℕ)
    → Cached ob o
    → (w : ℕ) × (find o (assign p v ob.values) ≡ some w)
assign-Cached ob p o v (w, e) = elim (same_offset o p) [
  | yes q ↦ (v, ap (λ r. find r (assign p v ob.values)) q ∙ find-assign_same p v ob.values)
  | no ne ↦ (w, find-assign_other p o v ob.values ne ∙ e)
]

module _ {U : Type 0} (update_eval : Evaluation U) where
  pub compared :
      (val : ValuedOffset) (ob : Observed) (u : U) (v : ℕ)
      → find val.offset ob.pending_welcomes ≡ none
      → find val.offset ob.values ≡ some v
      → check_value update_eval val (ob, u)
        ≡ (if v == val.value then return tt (ob, u) else report update_eval val (ob, u))
  unfolding check_value
  compared val ob u v e c = rw (e, c, check_value) refl

module _ {U : Type 0} (update_eval : Evaluation U)
    (total : (v : ValuedOffset) (u : U) → (u' : U) × (update_eval v u ≡ (ok tt, u'))) where
  report_defined :
      (val : ValuedOffset) (ob : Observed) (u : U)
      → (ob' : Observed) × (u' : U) × (report update_eval val (ob, u) ≡ (ok tt, (ob', u')))
        × Kept ob ob'
        × Cached ob' val.offset
  unfolding report cache
  report_defined val ob u =
      let (u', run) = total val u in
      (
        record ob { values = assign val.offset val.value ob.values },
        u',
        rw run refl,
        record {
          offsets = refl;
          pending = refl;
          cached = λ o h. assign-Cached ob val.offset o val.value h;
        },
        (val.value, find-assign_same val.offset val.value ob.values),
      )

  welcomed :
      (val : ValuedOffset) (ob : Observed) (u : U)
      → Welcome ob val.offset
      → check_value update_eval val (ob, u) ≡ report update_eval val (ob, u)
  unfolding check_value
  welcomed val ob u w = rw (w, check_value) refl

  check_value_defined :
      (val : ValuedOffset) (ob : Observed) (u : U)
      → Welcome ob val.offset ⊎ Cached ob val.offset
      → (ob' : Observed) × (u' : U) × (check_value update_eval val (ob, u) ≡ (ok tt, (ob', u')))
        × Kept ob ob'
        × Cached ob' val.offset
  check_value_defined val ob u h =
      let (ob', u', run, kept, there) = report_defined val ob u in
      elim (Option-cases (find val.offset ob.pending_welcomes)) [
        | inr (tt, w) ↦ (ob', u', welcomed val ob u w ∙ run, kept, there)
        | inl e ↦ elim h [
          | inl w ↦ absurd cc
          | inr (v, c) ↦ elim (Bool-cases (v == val.value)) [
            | inl same ↦ (
              ob,
              u,
              compared update_eval val ob u v e c
                  ∙ ap (λ b. if b then return tt (ob, u) else report update_eval val (ob, u)) same,
              record { offsets = refl; pending = refl; cached = λ o k. k },
              (v, c),
            )
            | inr differ ↦ (
              ob',
              u',
              compared update_eval val ob u v e c
                  ∙ ap (λ b. if b then return tt (ob, u) else report update_eval val (ob, u)) differ
                  ∙ run,
              kept,
              there,
            )
          ]
        ]
      ]

  tracked_after :
      {ob ob' : Observed}
      → Kept ob ob'
      → (o : Offset) → Welcome ob o ⊎ Cached ob o
      → Welcome ob' o ⊎ Cached ob' o
  tracked_after kept o (inl w) = inl (ap (find o) kept.pending ∙ w)
  tracked_after kept o (inr c) = inr (kept.cached o c)

  pub evaluate_each_defined :
      (vals : List ValuedOffset) (ob : Observed) (u : U)
      → Each (λ o. Welcome ob o ⊎ Cached ob o) (map (λ v. v.offset) vals)
      → (ob' : Observed) × (u' : U) × (evaluate_each (check_value update_eval) vals (ob, u)
          ≡ (ok tt, (ob', u')))
        × Kept ob ob'
        × Each (Cached ob') (map (λ v. v.offset) vals)
  unfolding evaluate_each
  evaluate_each_defined [] ob u h =
      (ob, u, refl, record { offsets = refl; pending = refl; cached = λ o k. k }, tt)
  evaluate_each_defined (v ∷ vals) ob u (h, hs) =
      let (ob1, u1, run1, kept1, there) = check_value_defined v ob u h in
      let (ob2, u2, run2, kept2, all) =
        evaluate_each_defined vals ob1 u1
          (Each-mono (tracked_after kept1) (map (λ w. w.offset) vals) hs) in
      (
        ob2,
        u2,
        and_then-ok _ run1 ∙ run2,
        record {
          offsets = kept2.offsets ∙ kept1.offsets;
          pending = kept2.pending ∙ kept1.pending;
          cached = λ o c. kept2.cached o (kept1.cached o c);
        },
        (kept2.cached v.offset there, all),
      )
