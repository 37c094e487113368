-- ===== src/Fsuipc/UpdateObserver/Checks.antt =====
-- Whole checks of `update_observer`: what a check calls and what it leaves.
use open_airbus_cockpit.Prelude.{
  ==_self, if◌then◌else◌, ◌≡◌, refl, sym, ap, subst, ◌∙◌, ◌⊎◌, inr, List, [], ◌∷◌, map, none, some,
  ok, and_then-ok, return,
}
use open_airbus_cockpit.Prelude.Maps.{find}
use open_airbus_cockpit.Fsuipc.Offset.{Offset, same_offset, ValuedOffset}
use open_airbus_cockpit.Fsuipc.Client.{UserAdapter, read_values, evaluate_each, query}
use open_airbus_cockpit.Fsuipc.UpdateObserver.{
  Observed, Evaluation, offsets_of, report, check_value, check_for_updates,
}
use open_airbus_cockpit.Fsuipc.UpdateObserver.Tracking.{
  Each, Each-mono, Cached, Welcome, Tracked, compared, evaluate_each_defined,
}

abbrev pub offsets_in : List ValuedOffset → List Offset
offsets_in = map (λ v. v.offset)

-- What was read is what was read before, and nothing is new.
abbrev pub Unchanged : Observed → List ValuedOffset → Type 0
Unchanged ob [] = Unit {0}
Unchanged ob (v ∷ vals) =
    (find v.offset ob.pending_welcomes ≡ none)
    × (find v.offset ob.values ≡ some v.value)
    × Unchanged ob vals

query-evaluated :
    {S T : Type 0} (adapter : UserAdapter S) (os : List Offset) (vals : List ValuedOffset)
    (evaluate : Evaluation T) (s s' : S) (t t' : T)
    → read_values adapter os s ≡ (ok vals, s')
    → offsets_in vals ≡ os
    → evaluate_each evaluate vals t ≡ (ok tt, t')
    → (s'' : S) × (query adapter os evaluate (s, t) ≡ (ok tt, (s'', t')))
unfolding query evaluate_each
query-evaluated adapter [] [] evaluate s s' t t' got same run = (s, ap (λ r. (r.0, (s, r.1))) run)
query-evaluated adapter [] (v ∷ vals) evaluate s s' t t' got same run = absurd cc
query-evaluated adapter (o ∷ os) vals evaluate s s' t t' got same run =
    (s', rw got (ap (λ r. (r.0, (s', r.1))) run))

module _ {U : Type 0} (update_eval : Evaluation U) where
  -- Every observed offset has a pending welcome or a cached value, the query reads a value for each of them, in their
  -- order, and the evaluation function returns. Then `check_for_updates` returns: it never dereferences a cached
  -- value that is not there. Afterwards the same offsets are observed, no welcome is pending, and every
  -- observed offset has a cached value, so that the next check can rely on the same.
  pub check_for_updates_tracks :
      {S : Type 0} (total : (v : ValuedOffset) (u : U) → (u' : U) × (update_eval v u ≡ (ok tt, u')))
      (adapter : UserAdapter S) (s s' : S) (ob : Observed) (u : U) (vals : List ValuedOffset)
      → Tracked ob
      → read_values adapter (offsets_of ob.offsets) s ≡ (ok vals, s')
      → offsets_in vals ≡ offsets_of ob.offsets
      → (s'' : S) × (ob' : Observed) × (u' : U) × (check_for_updates update_eval adapter
            (s, (ob, u))
          ≡ (ok tt, (s'', (ob', u'))))
        × (ob'.offsets ≡ ob.offsets)
        × (ob'.pending_welcomes ≡ [])
        × Tracked ob'
  unfolding check_for_updates
  check_for_updates_tracks total adapter s s' ob u vals tracked got same =
      let (ob1, u1, run, kept, all) =
        evaluate_each_defined update_eval total vals ob u
          (subst (Each (λ o. Welcome ob o ⊎ Cached ob o)) (sym same) tracked) in
      let (s'', asked) =
        query-evaluated adapter (offsets_of ob.offsets) vals (check_value update_eval) s s' (ob, u)
          (ob1, u1) got same run in
      let ob' : Observed = record ob1 { pending_welcomes = [] } in
      (
        s'',
        ob',
        u1,
        and_then-ok _ asked,
        kept.offsets,
        refl,
        Each-mono {P = Cached ob1} (λ o c. inr c) (offsets_of ob1.offsets)
            (subst (Each (Cached ob1)) (same ∙ ap offsets_of (sym kept.offsets)) all),
      )

  quiet :
      (vals : List ValuedOffset) (ob : Observed) (u : U)
      → Unchanged ob vals
      → evaluate_each (check_value update_eval) vals (ob, u) ≡ (ok tt, (ob, u))
  unfolding evaluate_each
  quiet [] ob u h = refl
  quiet (v ∷ vals) ob u (e, c, h) =
      and_then-ok _ (
        compared update_eval v ob u v.value e c
        ∙ ap (λ b. if b then return tt (ob, u) else report update_eval v (ob, u)) (==_self v.value))
      ∙ quiet vals ob u h

  -- When no welcome is pending for what the query reads and every value is the cached one, `check_for_updates`
  -- returns without calling the evaluation function, whatever that is: its state is unchanged, and so are the
  -- observed offsets and the cached values.
  pub same_values_unreported :
      {S : Type 0} (adapter : UserAdapter S) (s s' : S) (ob : Observed) (u : U)
      (vals : List ValuedOffset)
      → read_values adapter (offsets_of ob.offsets) s ≡ (ok vals, s')
      → offsets_in vals ≡ offsets_of ob.offsets
      → Unchanged ob vals
      → (s'' : S) × (check_for_updates update_eval adapter (s, (ob, u))
          ≡ (ok tt, (s'', (record ob { pending_welcomes = [] }, u))))
  unfolding check_for_updates
  same_values_unreported adapter s s' ob u vals got same unchanged =
      let (s'', asked) =
        query-evaluated adapter (offsets_of ob.offsets) vals (check_value update_eval) s s' (ob, u)
          (ob, u) got same (quiet vals ob u unchanged) in
      (s'', and_then-ok _ asked)
