-- ===== src/Core/Traces.antt =====
-- What stays so whatever calls of the core follow one another, those that throw included.
use open_airbus_cockpit.Prelude.{
  ℕ, ◌≡◌, refl, sym, ap, ◌∙◌, inl, inr, List, none, some, Option-cases, Outcome, ok, throws,
  undefined, diverges, and_then, return, ◌>>◌, ◌⊎◌,
}
use open_airbus_cockpit.Prelude.Maps.{
  find, find-nil, erase, assign, find-erase_same, find-erase_other, find-assign_same,
  find-assign_other, same_number, same_string,
}
use open_airbus_cockpit.Exception.{Exception}
use open_airbus_cockpit.Var.Types.{VariableId}
use open_airbus_cockpit.Var.Value.{VariableValue}
use open_airbus_cockpit.Core.{
  FlightVars, Core, new_core, get_master_by_var_id, get_master_by_subs_id, register_group_master,
  subscribe, unsubscribe, update,
}

module _ {M H : Type 0} (ops : FlightVars M H) where
  -- One call of the core, or a change of the masters that the core has no part in.
  pub data Step (c : Core M) : Core M → Type 0 where
    registers : (grp : List ℕ) (master : ℕ) → Step c (register_group_master grp master c).1
    subscribes : (var : VariableId) (handler : H) → Step c (subscribe ops var handler c).1
    unsubscribes : (id : ℕ) → Step c (unsubscribe ops id c).1
    updates : (id : ℕ) (value : VariableValue) → Step c (update ops id value c).1
    masters_move : (m : M) → Step c (record c { masters = m })

  pub data Steps (c : Core M) : Core M → Type 0 where
    stay : Steps c c
    then_step : {c' c'' : Core M} → Steps c c' → Step c' c'' → Steps c c''

  -- A call changes the tables in one of four ways.
  data Change (c c' : Core M) : Type 0 where
    nothing : c'.subscriptions ≡ c.subscriptions → c'.group_masters ≡ c.group_masters → Change c c'
    new_master :
        (grp : List ℕ) (master : ℕ)
        → find grp c.group_masters ≡ none
        → c'.subscriptions ≡ c.subscriptions
        → c'.group_masters ≡ assign grp master c.group_masters
        → Change c c'
    new_route :
        (grp : List ℕ) (master id : ℕ)
        → find grp c.group_masters ≡ some master
        → c'.subscriptions ≡ assign id master c.subscriptions
        → c'.group_masters ≡ c.group_masters
        → Change c c'
    lost_route :
        (id : ℕ)
        → c'.subscriptions ≡ erase id c.subscriptions
        → c'.group_masters ≡ c.group_masters
        → Change c c'

  register-Change :
      (c : Core M) (grp : List ℕ) (master : ℕ) → Change c (register_group_master grp master c).1
  unfolding register_group_master
  register-Change c grp master = elim (Option-cases (find grp c.group_masters)) [
    | inl missing ↦ rw (missing, register_group_master) (new_master grp master missing refl refl)
    | inr (other, found) ↦ rw (found, register_group_master) (nothing refl refl)
  ]

  -- What the core does with a master's answer.
  subscribe_answered :
      (c : Core M) (grp : List ℕ) (master : ℕ) (o : Outcome Exception ℕ) (m : M)
      → find grp c.group_masters ≡ some master
      → Change c
          (and_then
            (o, record c { masters = m })
            (λ id.
              (λ c'. return tt (record c' { subscriptions = assign id master c'.subscriptions }))
              >> return id)).1
  subscribe_answered c grp master (ok id) m found = new_route grp master id found refl refl
  subscribe_answered c grp master (throws e) m found = nothing refl refl
  subscribe_answered c grp master undefined m found = nothing refl refl
  subscribe_answered c grp master diverges m found = nothing refl refl

  unsubscribe_answered :
      (c : Core M) (id : ℕ) (o : Outcome Exception (Unit {0})) (m : M)
      → Change c
          (and_then
            (o, record c { masters = m })
            (λ _ c'. return tt (record c' { subscriptions = erase id c'.subscriptions }))).1
  unsubscribe_answered c id (ok _) m = lost_route id refl refl
  unsubscribe_answered c id (throws e) m = nothing refl refl
  unsubscribe_answered c id undefined m = nothing refl refl
  unsubscribe_answered c id diverges m = nothing refl refl

  subscribe-Change :
      (c : Core M) (var : VariableId) (handler : H) → Change c (subscribe ops var handler c).1
  unfolding subscribe get_master_by_var_id
  subscribe-Change c var handler = elim (Option-cases (find var.group c.group_masters)) [
    | inl missing ↦ rw (missing, get_master_by_var_id) (nothing refl refl)
    | inr (master, found) ↦
        let answer = ops.subscribe master var handler c.masters in
        rw (found, get_master_by_var_id)
          (subscribe_answered c var.group master answer.0 answer.1 found)
  ]

  unsubscribe-Change : (c : Core M) (id : ℕ) → Change c (unsubscribe ops id c).1
  unfolding unsubscribe
  unsubscribe-Change c id = elim (Option-cases (find id c.subscriptions)) [
    | inl missing ↦ rw (missing, unsubscribe) (nothing refl refl)
    | inr (master, found) ↦
        let answer = ops.unsubscribe master id c.masters in
        rw (found, unsubscribe) (unsubscribe_answered c id answer.0 answer.1)
  ]

  update-Change : (c : Core M) (id : ℕ) (value : VariableValue) → Change c (update ops id value c).1
  unfolding update get_master_by_subs_id
  update-Change c id value = elim (Option-cases (find id c.subscriptions)) [
    | inl missing ↦ rw (missing, update) (nothing refl refl)
    | inr (master, found) ↦ rw (found, update) (nothing refl refl)
  ]

  Step-Change : (c c' : Core M) → Step c c' → Change c c'
  Step-Change c _ (registers grp master) = register-Change c grp master
  Step-Change c _ (subscribes var handler) = subscribe-Change c var handler
  Step-Change c _ (unsubscribes id) = unsubscribe-Change c id
  Step-Change c _ (updates id value) = update-Change c id value
  Step-Change c _ (masters_move m) = nothing refl refl

  -- A group keeps its master.
  group_kept :
      (c c' : Core M) (grp : List ℕ) (master : ℕ)
      → Change c c'
      → find grp c.group_masters ≡ some master
      → find grp c'.group_masters ≡ some master
  group_kept c c' grp master (nothing _ same) h = ap (find grp) same ∙ h
  group_kept c c' grp master (new_route _ _ _ _ _ same) h = ap (find grp) same ∙ h
  group_kept c c' grp master (lost_route _ _ same) h = ap (find grp) same ∙ h
  group_kept c c' grp master (new_master new other missing _ more) h =
      ap (find grp) more
      ∙ find-assign_other new grp other c.group_masters (λ e. absurd (
          let p : none ≡ some master = sym missing ∙ ap (λ k. find k c.group_masters) (sym e) ∙ h in
          cc))
      ∙ h

  -- Whatever calls follow, also calls that throw: a group that has a master keeps that one.
  pub masters_kept :
      (c c' : Core M) (grp : List ℕ) (master : ℕ)
      → Steps c c'
      → find grp c.group_masters ≡ some master
      → find grp c'.group_masters ≡ some master
  masters_kept c c' grp master stay h = h
  masters_kept c c'' grp master (then_step {c'} steps step) h =
      group_kept c' c'' grp master (Step-Change c' c'' step) (masters_kept c c' grp master steps h)

  -- A route that is there after a call was there before it, or leads to the master of a group.
  route_kept :
      (c c' : Core M) (id master : ℕ)
      → Change c c'
      → find id c'.subscriptions ≡ some master
      → (find id c.subscriptions ≡ some master)
        ⊎ ((grp : List ℕ) × (find grp c.group_masters ≡ some master))
  route_kept c c' id master (nothing same _) h = inl (ap (find id) (sym same) ∙ h)
  route_kept c c' id master (new_master _ _ _ same _) h = inl (ap (find id) (sym same) ∙ h)
  route_kept c c' id master (lost_route gone less _) h = elim (same_number id gone) [
    | yes e ↦
        let p : none ≡ some master =
          sym (find-erase_same gone c.subscriptions)
          ∙ ap (λ k. find k (erase gone c.subscriptions)) (sym e)
          ∙ ap (find id) (sym less)
          ∙ h in
        absurd cc
    | no other ↦
        inl (sym (find-erase_other gone id c.subscriptions other) ∙ ap (find id) (sym less) ∙ h)
  ]
  route_kept c c' id master (new_route grp owner new found more _) h = elim (same_number id new) [
    | yes e ↦ inr (
      grp,
      found
          ∙ sym (find-assign_same new owner c.subscriptions)
          ∙ ap (λ k. find k (assign new owner c.subscriptions)) (sym e)
          ∙ ap (find id) (sym more)
          ∙ h,
    )
    | no other ↦
        inl
          (sym (find-assign_other new id owner c.subscriptions other) ∙ ap (find id) (sym more) ∙ h)
  ]

  -- Whatever calls have been made of a new core, also calls that threw, and whatever its masters did: an identifier
  -- that leads to a master leads to one that is registered for a group.
  pub routes_registered :
      (start : M) (c : Core M) (id master : ℕ)
      → Steps (new_core start) c
      → get_master_by_subs_id id c ≡ some master
      → (grp : List ℕ) × (find grp c.group_masters ≡ some master)
  unfolding get_master_by_subs_id
  routes_registered start _ id master stay h =
      let p : none ≡ some master = sym (find-nil id) ∙ h in absurd cc
  routes_registered start c id master (then_step {c'} steps step) h =
      let change = Step-Change c' c step in
      elim (route_kept c' c id master change h) [
        | inl before ↦
            let (grp, found) = routes_registered start c' id master steps before in
            (grp, group_kept c' c grp master change found)
        | inr (grp, found) ↦ (grp, group_kept c' c grp master change found)
      ]
