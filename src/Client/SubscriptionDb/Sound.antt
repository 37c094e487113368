-- ===== src/Client/SubscriptionDb/Sound.antt =====
-- The invariant of `subscription_db`: its three maps and its entries agree. The steps that the methods are made of keep it.
use open_airbus_cockpit.Prelude.{
  ℕ, ◌<◌, ◌≡◌, ◌≢◌, ◌⊎◌, sym, ap, ◌∙◌, inl, inr, List, [], ◌∷◌, ◌++◌, true, none, some,
}
use open_airbus_cockpit.Prelude.Maps.{
  Map, find, erase, assign, same_number, find-erase_same, find-erase_other, find-assign_same,
  find-assign_other,
}
use open_airbus_cockpit.Var.Types.{VariableId, same_variable}
use open_airbus_cockpit.Client.SubscriptionDb.{Virtual, Entry, SubscriptionDb, remove_if}
use open_airbus_cockpit.Client.SubscriptionDb.Ids.{
  Held, Distinct, has_id, Held-assign, Held-append, Held-erase, Held-Without_other,
  Held-Without_new, remove_if-Without_self, remove_if-Distinct, Held-remove_if, append-Distinct,
  has_id-append, has_id_last, has_id-remove_if,
}

pub some_injective : {A : Type 0} {a b : A} → some a ≡ some b → a ≡ b
some_injective e = cc

module _ {H : Type 0} where
  -- The entry at a pointer is in the maps of variables and of masters.
  pub record Entered (db : SubscriptionDb H) (p : ℕ) (e : Entry H) : Type 0 where
    pub there : find p db.entries ≡ some e
    pub variable : find e.var_id db.var_id_map ≡ some p
    pub master : find e.master_subs_id db.master_subs_id_map ≡ some p

  pub record Sound (db : SubscriptionDb H) : Type 0 where
    pub variables :
        (v : VariableId) (p : ℕ)
        → find v db.var_id_map ≡ some p
        → (e : Entry H) × Entered db p e × (e.var_id ≡ v)
    pub masters :
        (m p : ℕ)
        → find m db.master_subs_id_map ≡ some p
        → (e : Entry H) × Entered db p e × (e.master_subs_id ≡ m)
    pub virtuals :
        (i p : ℕ)
        → find i db.virtual_subs_id_map ≡ some p
        → (e : Entry H) × Entered db p e × (has_id i e.virtual_subs ≡ true)
    pub listed :
        (p : ℕ) (e : Entry H)
        → Entered db p e
        → Held p db.virtual_subs_id_map e.virtual_subs × Distinct e.virtual_subs
    pub fresh : (p : ℕ) (e : Entry H) → find p db.entries ≡ some e → p < db.next_entry

  pub empty-Sound :
      (n i : ℕ)
      → Sound (record {
        var_id_map = [];
        master_subs_id_map = [];
        virtual_subs_id_map = [];
        entries = [];
        next_entry = n;
        next_id = i;
      })
  unfolding find
  empty-Sound n i = record {
    variables = λ v p h. absurd cc;
    masters = λ m p h. absurd cc;
    virtuals = λ j p h. absurd cc;
    listed = λ p e x. absurd (let h = x.there in cc);
    fresh = λ p e h. absurd cc;
  }

  -- The entry at `p` gets another list, and the map of virtual subscriptions follows.
  module _ (db : SubscriptionDb H) (p : ℕ) (e : Entry H) (virtual_subs : List (Virtual H))
      (m : Map ℕ ℕ) (next_id : ℕ) where
    abbrev pub relisted : SubscriptionDb H
    relisted = record db {
      entries = assign p (record e { virtual_subs = virtual_subs }) db.entries;
      virtual_subs_id_map = m;
      next_id = next_id;
    }

    pub relisted-Entered :
        Entered db p e → Entered relisted p (record e { virtual_subs = virtual_subs })
    relisted-Entered x = record {
      there = find-assign_same p (record e { virtual_subs = virtual_subs }) db.entries;
      variable = x.variable;
      master = x.master;
    }

    pub relisted-Entered_other :
        (q : ℕ) (f : Entry H) → q ≢ p → Entered db q f → Entered relisted q f
    relisted-Entered_other q f d x = record {
      there =
          find-assign_other p q (record e { virtual_subs = virtual_subs }) db.entries d ∙ x.there;
      variable = x.variable;
      master = x.master;
    }

    Entered-relisted_other : (q : ℕ) (f : Entry H) → q ≢ p → Entered relisted q f → Entered db q f
    Entered-relisted_other q f d x = record {
      there =
          sym (find-assign_other p q (record e { virtual_subs = virtual_subs }) db.entries d)
          ∙ x.there;
      variable = x.variable;
      master = x.master;
    }

    pub same_entry : (q : ℕ) (f : Entry H) → q ≡ p → Entered db q f → Entered db p e → f ≡ e
    same_entry q f s y x = some_injective (sym y.there ∙ ap (λ k. find k db.entries) s ∙ x.there)

    relisted-Sound :
        Sound db
        → Entered db p e
        → Held p m virtual_subs
        → Distinct virtual_subs
        → ((q : ℕ) (f : Entry H) → q ≢ p → Entered db q f → Held q m f.virtual_subs)
        → ((i q : ℕ)
            → find i m ≡ some q
            → (q ≡ p) × (has_id i virtual_subs ≡ true)
              ⊎ (q ≢ p) × (find i db.virtual_subs_id_map ≡ some q))
        → Sound relisted
    relisted-Sound v x held distinct others lead = record {
      variables = λ w q h. elim (same_number q p) [
        | yes s ↦
            let (f, y, g) = v.variables w q h in
            (
              record e { virtual_subs = virtual_subs },
              rw s (relisted-Entered x),
              ap (λ k. k.var_id) (sym (same_entry q f s y x)) ∙ g,
            )
        | no d ↦ let (f, y, g) = v.variables w q h in (f, relisted-Entered_other q f d y, g)
      ];
      masters = λ w q h. elim (same_number q p) [
        | yes s ↦
            let (f, y, g) = v.masters w q h in
            (
              record e { virtual_subs = virtual_subs },
              rw s (relisted-Entered x),
              ap (λ k. k.master_subs_id) (sym (same_entry q f s y x)) ∙ g,
            )
        | no d ↦ let (f, y, g) = v.masters w q h in (f, relisted-Entered_other q f d y, g)
      ];
      virtuals = λ i q h. elim (lead i q h) [
        | inl (s, has) ↦ (record e { virtual_subs = virtual_subs }, rw s (relisted-Entered x), has)
        | inr (d, was) ↦
            let (f, y, g) = v.virtuals i q was in (f, relisted-Entered_other q f d y, g)
      ];
      listed = λ q f y. elim (same_number q p) [
        | yes s ↦
            let g : f ≡ record e { virtual_subs = virtual_subs } =
              some_injective
                (sym y.there ∙ ap (λ k. find k relisted.entries) s ∙ (relisted-Entered x).there) in
            rw (g, s) (held, distinct)
        | no d ↦ (
          others q f d (Entered-relisted_other q f d y),
          (v.listed q f (Entered-relisted_other q f d y)).1,
        )
      ];
      fresh = λ q f h. elim (same_number q p) [
        | yes s ↦ rw s (v.fresh p e x.there)
        | no d ↦ v.fresh q f (
            sym (find-assign_other p q (record e { virtual_subs = virtual_subs }) db.entries d) ∙ h)
      ];
    }

  -- An entry gets one more subscription, under a new identifier.
  pub appended-Sound :
      (db : SubscriptionDb H) (p : ℕ) (e : Entry H) (s : Virtual H) (next_id : ℕ)
      → Sound db
      → Entered db p e
      → find s.id db.virtual_subs_id_map ≡ none
      → Sound (
          relisted db p e
            (e.virtual_subs ++ (s ∷ []))
            (assign s.id p db.virtual_subs_id_map)
            next_id)
  appended-Sound db p e s next_id v x new =
      let m = db.virtual_subs_id_map in
      let (held, distinct) = v.listed p e x in
      relisted-Sound db p e (e.virtual_subs ++ (s ∷ [])) (assign s.id p m) next_id v x
        (Held-append p (assign s.id p m) e.virtual_subs s
          (Held-assign p s.id p m e.virtual_subs new held) (find-assign_same s.id p m))
        (append-Distinct e.virtual_subs s distinct
          (Held-Without_new p s.id m e.virtual_subs held new))
        (λ q f d y. Held-assign q s.id p m f.virtual_subs new (v.listed q f y).0)
        λ i q h. elim (same_number i s.id) [
          | yes r ↦ inl (
            some_injective
                (sym h ∙ ap (λ k. find k (assign s.id p m)) r ∙ find-assign_same s.id p m),
            rw r (has_id_last e.virtual_subs s),
          )
          | no r ↦
              let was = sym (find-assign_other s.id i p m r) ∙ h in
              elim (same_number q p) [
                | no d ↦ inr (d, was)
                | yes d ↦
                    let (f, y, has) = v.virtuals i q was in
                    inl (
                      d,
                      has_id-append i e.virtual_subs (s ∷ []) (
                          ap (λ k. has_id i k.virtual_subs)
                            (sym (same_entry db p e [] m 0 q f d y x))
                          ∙ has),
                    )
              ]
        ]

  -- An entry loses a subscription.
  pub removed-Sound :
      (db : SubscriptionDb H) (p : ℕ) (e : Entry H) (id : ℕ)
      → Sound db
      → Entered db p e
      → find id db.virtual_subs_id_map ≡ some p
      → Sound (
          relisted db p e
            (remove_if id e.virtual_subs)
            (erase id db.virtual_subs_id_map)
            db.next_id)
  removed-Sound db p e id v x at_id =
      let m = db.virtual_subs_id_map in
      let (held, distinct) = v.listed p e x in
      relisted-Sound db p e (remove_if id e.virtual_subs) (erase id m) db.next_id v x
        (Held-erase p id m (remove_if id e.virtual_subs) (remove_if-Without_self id e.virtual_subs)
          (Held-remove_if p id m e.virtual_subs held))
        (remove_if-Distinct id e.virtual_subs distinct)
        (λ q f d y.
          Held-erase q id m f.virtual_subs
            (Held-Without_other q p id m f.virtual_subs (v.listed q f y).0 at_id d)
            (v.listed q f y).0)
        λ i q h. elim (same_number i id) [
          | yes r ↦
              let gone : none ≡ some q =
                sym (find-erase_same id m) ∙ ap (λ k. find k (erase id m)) (sym r) ∙ h in
              absurd cc
          | no r ↦
              let was = sym (find-erase_other id i m r) ∙ h in
              elim (same_number q p) [
                | no d ↦ inr (d, was)
                | yes d ↦
                    let (f, y, has) = v.virtuals i q was in
                    inl (
                      d,
                      has_id-remove_if i id e.virtual_subs r (
                          ap (λ k. has_id i k.virtual_subs)
                            (sym (same_entry db p e [] m 0 q f d y x))
                          ∙ has),
                    )
              ]
        ]
