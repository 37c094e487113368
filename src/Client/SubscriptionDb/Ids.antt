-- ===== src/Client/SubscriptionDb/Ids.antt =====
-- The identifiers of a list of virtual subscriptions, and where a map leads them.
use open_airbus_cockpit.Prelude.{
  ℕ, ◌≡◌, ◌≢◌, refl, sym, ap, ◌∙◌, inl, inr, List, [], ◌∷◌, ◌++◌, Bool, true, false, ◌||◌, none,
  some, ◌==◌, ==_iff, Bool-cases, arith,
}
use open_airbus_cockpit.Prelude.Maps.{
  Map, find, erase, assign, same_number, find-erase_other, keys_differ, keys_apart,
  find-assign_other,
}
use open_airbus_cockpit.Client.SubscriptionDb.{Virtual, remove_if}

module _ {H : Type 0} where
  -- Every identifier of the list leads to `p`.
  abbrev pub Held : ℕ → Map ℕ ℕ → List (Virtual H) → Type 0
  Held p m [] = Unit
  Held p m (s ∷ ss) = (find s.id m ≡ some p) × Held p m ss

  abbrev pub Without : ℕ → List (Virtual H) → Type 0
  Without id [] = Unit
  Without id (s ∷ ss) = (s.id ≢ id) × Without id ss

  abbrev pub Distinct : List (Virtual H) → Type 0
  Distinct [] = Unit
  Distinct (s ∷ ss) = Without s.id ss × Distinct ss

  abbrev pub has_id : ℕ → List (Virtual H) → Bool
  has_id id [] = false
  has_id id (s ∷ ss) = (s.id == id) || has_id id ss

  pub Held-assign :
      (p i q : ℕ) (m : Map ℕ ℕ) (ss : List (Virtual H))
      → find i m ≡ none
      → Held p m ss
      → Held p (assign i q m) ss
  Held-assign p i q m [] new h = tt
  Held-assign p i q m (s ∷ ss) new (h, hs) = (
    find-assign_other i s.id q m (keys_differ m s.id i p h new) ∙ h,
    Held-assign p i q m ss new hs,
  )

  pub Held-append :
      (p : ℕ) (m : Map ℕ ℕ) (ss : List (Virtual H)) (s : Virtual H)
      → Held p m ss
      → find s.id m ≡ some p
      → Held p m (ss ++ (s ∷ []))
  Held-append p m [] s hs h = (h, tt)
  Held-append p m (t ∷ ss) s (ht, hs) h = (ht, Held-append p m ss s hs h)

  pub Held-erase :
      (p i : ℕ) (m : Map ℕ ℕ) (ss : List (Virtual H))
      → Without i ss
      → Held p m ss
      → Held p (erase i m) ss
  Held-erase p i m [] w h = tt
  Held-erase p i m (s ∷ ss) (d, w) (h, hs) =
      (find-erase_other i s.id m d ∙ h, Held-erase p i m ss w hs)

  pub Held-Without_other :
      (p q i : ℕ) (m : Map ℕ ℕ) (ss : List (Virtual H))
      → Held p m ss
      → find i m ≡ some q
      → p ≢ q
      → Without i ss
  Held-Without_other p q i m [] hs h d = tt
  Held-Without_other p q i m (s ∷ ss) (hd, hs) h d =
      (keys_apart m s.id i p q hd h d, Held-Without_other p q i m ss hs h d)

  pub Held-Without_new :
      (p i : ℕ) (m : Map ℕ ℕ) (ss : List (Virtual H)) → Held p m ss → find i m ≡ none → Without i ss
  Held-Without_new p i m [] hs h = tt
  Held-Without_new p i m (s ∷ ss) (hd, hs) h =
      (keys_differ m s.id i p hd h, Held-Without_new p i m ss hs h)

  pub remove_if-Without_self : (i : ℕ) (ss : List (Virtual H)) → Without i (remove_if i ss)
  unfolding remove_if
  remove_if-Without_self i [] = tt
  remove_if-Without_self i (s ∷ ss) = elim (Bool-cases (s.id == i)) [
    | inl e ↦ rw e (remove_if-Without_self i ss)
    | inr e ↦ rw e ((λ q. let r = (==_iff s.id i).1 q in absurd (cc)), remove_if-Without_self i ss)
  ]

  remove_if_absent : (i : ℕ) (ss : List (Virtual H)) → Without i ss → remove_if i ss ≡ ss
  unfolding remove_if
  remove_if_absent i [] w = refl
  remove_if_absent i (s ∷ ss) (d, w) = elim (Bool-cases (s.id == i)) [
    | inl e ↦ absurd (d ((==_iff s.id i).0 e))
    | inr e ↦ rw e (ap (◌∷◌ s) (remove_if_absent i ss w))
  ]

  -- To remove the first of a list of distinct identifiers.
  pub remove_if_first :
      (s : Virtual H) (ss : List (Virtual H)) → Distinct (s ∷ ss) → remove_if s.id (s ∷ ss) ≡ ss
  unfolding remove_if
  remove_if_first s ss (w, d) =
      let e = (==_iff s.id s.id).1 refl in rw e (remove_if_absent s.id ss w)

  pub remove_if-Without :
      (i j : ℕ) (ss : List (Virtual H)) → Without j ss → Without j (remove_if i ss)
  unfolding remove_if
  remove_if-Without i j [] w = tt
  remove_if-Without i j (s ∷ ss) (d, w) = elim (Bool-cases (s.id == i)) [
    | inl e ↦ rw e (remove_if-Without i j ss w)
    | inr e ↦ rw e (d, remove_if-Without i j ss w)
  ]

  pub remove_if-Distinct : (i : ℕ) (ss : List (Virtual H)) → Distinct ss → Distinct (remove_if i ss)
  unfolding remove_if
  remove_if-Distinct i [] d = tt
  remove_if-Distinct i (s ∷ ss) (w, d) = elim (Bool-cases (s.id == i)) [
    | inl e ↦ rw e (remove_if-Distinct i ss d)
    | inr e ↦ rw e (remove_if-Without i s.id ss w, remove_if-Distinct i ss d)
  ]

  pub Held-remove_if :
      (p i : ℕ) (m : Map ℕ ℕ) (ss : List (Virtual H)) → Held p m ss → Held p m (remove_if i ss)
  unfolding remove_if
  Held-remove_if p i m [] h = tt
  Held-remove_if p i m (s ∷ ss) (h, hs) = elim (Bool-cases (s.id == i)) [
    | inl e ↦ rw e (Held-remove_if p i m ss hs)
    | inr e ↦ rw e (h, Held-remove_if p i m ss hs)
  ]

  append-Without :
      (i : ℕ) (ss : List (Virtual H)) (s : Virtual H)
      → s.id ≢ i
      → Without i ss
      → Without i (ss ++ (s ∷ []))
  append-Without i [] s d w = (d, tt)
  append-Without i (t ∷ ss) s d (e, w) = (e, append-Without i ss s d w)

  pub append-Distinct :
      (ss : List (Virtual H)) (s : Virtual H)
      → Distinct ss
      → Without s.id ss
      → Distinct (ss ++ (s ∷ []))
  append-Distinct [] s d w = (tt, tt)
  append-Distinct (t ∷ ss) s (wt, d) (e, w) =
      (append-Without t.id ss s (λ q. e (sym q)) wt, append-Distinct ss s d w)

  pub has_id-append :
      (i : ℕ) (ss ts : List (Virtual H)) → has_id i ss ≡ true → has_id i (ss ++ ts) ≡ true
  has_id-append i [] ts h = absurd cc
  has_id-append i (s ∷ ss) ts h = ground (arith, has_id-append i ss ts)

  pub has_id_last : (ss : List (Virtual H)) (s : Virtual H) → has_id s.id (ss ++ (s ∷ [])) ≡ true
  has_id_last [] s = let e = (==_iff s.id s.id).1 refl in ground arith
  has_id_last (t ∷ ss) s = ground (arith, has_id_last ss s)

  pub has_id-remove_if :
      (i j : ℕ) (ss : List (Virtual H))
      → i ≢ j
      → has_id i ss ≡ true
      → has_id i (remove_if j ss) ≡ true
  unfolding remove_if
  has_id-remove_if i j [] d h = absurd cc
  has_id-remove_if i j (s ∷ ss) d h =
      ground (arith, has_id-remove_if i j ss d, ==_iff s.id i, ==_iff s.id j)
