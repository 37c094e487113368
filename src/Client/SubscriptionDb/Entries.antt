-- ===== src/Client/SubscriptionDb/Entries.antt =====
-- Entries that `subscription_db` makes and forgets: the invariant is kept.
use open_airbus_cockpit.Prelude.{
  ℕ, ◌+◌, ◌≡◌, ◌≢◌, ◌⊎◌, sym, ap, ◌∙◌, inl, inr, [], none, some, arith, true,
}
use open_airbus_cockpit.Prelude.Maps.{
  find, erase, assign, same_number, find-erase_same, find-erase_other, find-assign_same,
  find-assign_other, keys_differ, keys_apart,
}
use open_airbus_cockpit.Var.Types.{VariableId, same_variable}
use open_airbus_cockpit.Client.SubscriptionDb.{Entry, SubscriptionDb}
use open_airbus_cockpit.Client.SubscriptionDb.Ids.{has_id}
use open_airbus_cockpit.Client.SubscriptionDb.Sound.{Entered, Sound, some_injective}

module _ {H : Type 0} where
  abbrev pub new_entry : VariableId → ℕ → Entry H
  new_entry v m = record { var_id = v; master_subs_id = m; virtual_subs = [] }

  -- What `init_entry` makes of the database.
  abbrev pub opened : VariableId → ℕ → SubscriptionDb H → SubscriptionDb H
  opened v m db = record db {
    var_id_map = assign v db.next_entry db.var_id_map;
    master_subs_id_map = assign m db.next_entry db.master_subs_id_map;
    entries = assign db.next_entry (new_entry v m) db.entries;
    next_entry = db.next_entry + 1;
  }

  pub opened-Entered :
      (v : VariableId) (m : ℕ) (db : SubscriptionDb H)
      → Entered (opened v m db) db.next_entry (new_entry v m)
  opened-Entered v m db = record {
    there = find-assign_same db.next_entry (new_entry v m) db.entries;
    variable = find-assign_same v db.next_entry db.var_id_map;
    master = find-assign_same m db.next_entry db.master_subs_id_map;
  }

  module _ (v : VariableId) (m : ℕ) (db : SubscriptionDb H) (s : Sound db)
      (new_var : find v db.var_id_map ≡ none)
      (new_master : find m db.master_subs_id_map ≡ none) where
    not_next : (q : ℕ) (f : Entry H) → find q db.entries ≡ some f → q ≢ db.next_entry
    not_next q f h e = let l = s.fresh q f h in absurd (omega arith)

    pub Entered-opened : (q : ℕ) (f : Entry H) → Entered db q f → Entered (opened v m db) q f
    Entered-opened q f x = record {
      there =
          find-assign_other db.next_entry q (new_entry v m) db.entries (not_next q f x.there)
          ∙ x.there;
      variable =
          find-assign_other v f.var_id db.next_entry db.var_id_map
            (keys_differ db.var_id_map f.var_id v q x.variable new_var)
          ∙ x.variable;
      master =
          find-assign_other m f.master_subs_id db.next_entry db.master_subs_id_map
            (keys_differ db.master_subs_id_map f.master_subs_id m q x.master new_master)
          ∙ x.master;
    }

    -- An entry of the database with one entry more.
    opened_cases :
        (q : ℕ) (f : Entry H) → Entered (opened v m db) q f → (f ≡ new_entry v m) ⊎ Entered db q f
    opened_cases q f x = elim (same_number q db.next_entry) [
      | yes e ↦ inl (
          some_injective (
            sym x.there
            ∙ ap (λ k. find k (opened v m db).entries) e
            ∙ find-assign_same db.next_entry (new_entry v m) db.entries))
      | no d ↦
          let was =
            sym (find-assign_other db.next_entry q (new_entry v m) db.entries d) ∙ x.there in
          let var_differs : f.var_id ≢ v = λ e. d (
            some_injective (
              sym x.variable
              ∙ ap (λ k. find k (opened v m db).var_id_map) e
              ∙ find-assign_same v db.next_entry db.var_id_map)) in
          let master_differs : f.master_subs_id ≢ m = λ e. d (
            some_injective (
              sym x.master
              ∙ ap (λ k. find k (opened v m db).master_subs_id_map) e
              ∙ find-assign_same m db.next_entry db.master_subs_id_map)) in
          inr (record {
            there = was;
            variable =
                sym (find-assign_other v f.var_id db.next_entry db.var_id_map var_differs)
                ∙ x.variable;
            master =
                sym (
                  find-assign_other m f.master_subs_id db.next_entry db.master_subs_id_map
                    master_differs)
                ∙ x.master;
          })
    ]

    pub opened-Sound : Sound (opened v m db)
    opened-Sound = record {
      variables = λ w q h. elim (same_variable w v) [
        | yes e ↦
            let here : q ≡ db.next_entry = some_injective (
              sym h
              ∙ ap (λ k. find k (opened v m db).var_id_map) e
              ∙ find-assign_same v db.next_entry db.var_id_map) in
            (new_entry v m, rw here (opened-Entered v m db), sym e)
        | no d ↦
            let (f, y, g) =
              s.variables w q (sym (find-assign_other v w db.next_entry db.var_id_map d) ∙ h) in
            (f, Entered-opened q f y, g)
      ];
      masters = λ w q h. elim (same_number w m) [
        | yes e ↦
            let here : q ≡ db.next_entry = some_injective (
              sym h
              ∙ ap (λ k. find k (opened v m db).master_subs_id_map) e
              ∙ find-assign_same m db.next_entry db.master_subs_id_map) in
            (new_entry v m, rw here (opened-Entered v m db), sym e)
        | no d ↦
            let (f, y, g) =
              s.masters w q
                (sym (find-assign_other m w db.next_entry db.master_subs_id_map d) ∙ h) in
            (f, Entered-opened q f y, g)
      ];
      virtuals = λ i q h. let (f, y, g) = s.virtuals i q h in (f, Entered-opened q f y, g);
      listed =
          λ q f y. elim (opened_cases q f y) [ inl e ↦ rw e (tt, tt) | inr x ↦ s.listed q f x ];
      fresh = λ q f h. elim (same_number q db.next_entry) [
        | yes e ↦ omega arith
        | no d ↦
            let l =
              s.fresh q f
                (sym (find-assign_other db.next_entry q (new_entry v m) db.entries d) ∙ h) in
            omega arith
      ];
    }

  -- The maps without an entry.
  abbrev pub dropped : Entry H → SubscriptionDb H → SubscriptionDb H
  dropped e db = record db {
    var_id_map = erase e.var_id db.var_id_map;
    master_subs_id_map = erase e.master_subs_id db.master_subs_id_map;
  }

  module _ (db : SubscriptionDb H) (p : ℕ) (e : Entry H) (s : Sound db) (x : Entered db p e) where
    pub Entered-dropped :
        (q : ℕ) (f : Entry H) → q ≢ p → Entered db q f → Entered (dropped e db) q f
    Entered-dropped q f d y = record {
      there = y.there;
      variable =
          find-erase_other e.var_id f.var_id db.var_id_map
            (keys_apart db.var_id_map f.var_id e.var_id q p y.variable x.variable d)
          ∙ y.variable;
      master =
          find-erase_other e.master_subs_id f.master_subs_id db.master_subs_id_map (
            keys_apart db.master_subs_id_map f.master_subs_id e.master_subs_id q p y.master x.master
              d)
          ∙ y.master;
    }

    same_at : (q : ℕ) (f : Entry H) → Entered db q f → q ≡ p → f ≡ e
    same_at q f y h = some_injective (sym y.there ∙ ap (λ k. find k db.entries) h ∙ x.there)

    dropped-Entered : (q : ℕ) (f : Entry H) → Entered (dropped e db) q f → Entered db q f
    dropped-Entered q f y =
        let var_differs : f.var_id ≢ e.var_id = λ h.
          let g : some q ≡ none =
            sym y.variable
            ∙ ap (λ k. find k (dropped e db).var_id_map) h
            ∙ find-erase_same e.var_id db.var_id_map in
          absurd cc in
        let master_differs : f.master_subs_id ≢ e.master_subs_id = λ h.
          let g : some q ≡ none =
            sym y.master
            ∙ ap (λ k. find k (dropped e db).master_subs_id_map) h
            ∙ find-erase_same e.master_subs_id db.master_subs_id_map in
          absurd cc in
        record {
          there = y.there;
          variable =
              sym (find-erase_other e.var_id f.var_id db.var_id_map var_differs) ∙ y.variable;
          master =
              sym (
                find-erase_other e.master_subs_id f.master_subs_id db.master_subs_id_map
                  master_differs)
              ∙ y.master;
        }

    pub dropped-Sound : e.virtual_subs ≡ [] → Sound (dropped e db)
    dropped-Sound empty = record {
      variables = λ w q h. elim (same_variable w e.var_id) [
        | yes g ↦
            let gone : none ≡ some q =
              sym (find-erase_same e.var_id db.var_id_map)
              ∙ ap (λ k. find k (dropped e db).var_id_map) (sym g)
              ∙ h in
            absurd cc
        | no d ↦
            let (f, y, g) =
              s.variables w q (sym (find-erase_other e.var_id w db.var_id_map d) ∙ h) in
            let apart : q ≢ p = λ r. d (sym g ∙ ap (λ k. k.var_id) (same_at q f y r)) in
            (f, Entered-dropped q f apart y, g)
      ];
      masters = λ w q h. elim (same_number w e.master_subs_id) [
        | yes g ↦
            let gone : none ≡ some q =
              sym (find-erase_same e.master_subs_id db.master_subs_id_map)
              ∙ ap (λ k. find k (dropped e db).master_subs_id_map) (sym g)
              ∙ h in
            absurd cc
        | no d ↦
            let (f, y, g) =
              s.masters w q
                (sym (find-erase_other e.master_subs_id w db.master_subs_id_map d) ∙ h) in
            let apart : q ≢ p = λ r. d (sym g ∙ ap (λ k. k.master_subs_id) (same_at q f y r)) in
            (f, Entered-dropped q f apart y, g)
      ];
      virtuals = λ i q h.
          let (f, y, has) = s.virtuals i q h in
          let apart : q ≢ p = λ r.
            let l : has_id {H = H} i [] ≡ true =
              ap (has_id i) (sym empty ∙ ap (λ k. k.virtual_subs) (sym (same_at q f y r))) ∙ has in
            absurd cc in
          (f, Entered-dropped q f apart y, has);
      listed = λ q f y. s.listed q f (dropped-Entered q f y);
      fresh = s.fresh;
    }
