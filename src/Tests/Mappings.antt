-- ===== src/Tests/Mappings.antt =====
-- The subscription mapper over a list of relations.
use open_airbus_cockpit.Prelude.{
  leb, ◌&&◌, ◌+◌, if◌then◌else◌, List, [], ◌∷◌, ℕ, ◌≡◌, ◌≢◌, refl, sym, ap, ◌∙◌, inl, inr,
  Option-cases, cons_injective, arith, [], ◌∷◌, Option, none, some, ok, throws,
}
use open_airbus_cockpit.Prelude.Maps.{same_number}
use open_airbus_cockpit.Var.Types.{VariableId, same_variable}
use open_airbus_cockpit.Subscription.Relations.{Bimap, IsBimap}
use open_airbus_cockpit.Subscription.{
  variable_already_exists_error, subscription_already_exists_error, register_subscription,
  get_var_id, get_subscription_id,
}
use open_airbus_cockpit.Subscription.Mapping.{register_subscription_lem}

-- A map as two functions; the order of its keys, which nothing here uses, is left out.
pub record Relation : Type 0 where
  pub left : VariableId → Option ℕ
  pub right : ℕ → Option VariableId

abbrev pub at_key : {K V : Type 0} → Discrete K → K → Option V → (K → Option V) → K → Option V
at_key same k v f j = elim (same j k) [ yes _ ↦ v | no _ ↦ f j ]

pub at_key_same :
    {K V : Type 0} (same : Discrete K) (k : K) (v : Option V) (f : K → Option V)
    → at_key same k v f k ≡ v
at_key_same same k v f = ground arith

pub at_key_other :
    {K V : Type 0} (same : Discrete K) (k j : K) (v : Option V) (f : K → Option V)
    → j ≢ k
    → at_key same k v f j ≡ f j
at_key_other same k j v f h = ground arith

-- Two functions that agree still do with one relation more, and with one less.
module _ {K V : Type 0} (same_key : Discrete K) (same_value : Discrete V) (f : K → Option V)
    (g : V → Option K) (agree : (k : K) (v : V) → f k ≡ some v → g v ≡ some k) where
  agree_added :
      (k k' : K) (v v' : V)
      → g v ≡ none
      → at_key same_key k (some v) f k' ≡ some v'
      → at_key same_value v (some k) g v' ≡ some k'
  agree_added k k' v v' new h = elim (same_key k' k) [
    | yes e ↦
        let both : some v ≡ some v' =
          sym (at_key_same same_key k (some v) f) ∙ ap (at_key same_key k (some v) f) (sym e) ∙ h in
        let p : v' ≡ v = cc in
        ap (at_key same_value v (some k) g) p
        ∙ at_key_same same_value v (some k) g
        ∙ ap some (sym e)
    | no other ↦
        let back : g v' ≡ some k' =
          agree k' v' (sym (at_key_other same_key k k' (some v) f other) ∙ h) in
        let differs : v' ≢ v = λ p. let q : none ≡ some k' = sym new ∙ ap g (sym p) ∙ back in cc in
        at_key_other same_value v v' (some k) g differs ∙ back
  ]

  agree_removed :
      (k k' : K) (v v' : V)
      → f k ≡ some v
      → at_key same_key k none f k' ≡ some v'
      → at_key same_value v none g v' ≡ some k'
  agree_removed k k' v v' there h = elim (same_key k' k) [
    | yes e ↦
        let p : none ≡ some v' =
          sym (at_key_same same_key k none f) ∙ ap (at_key same_key k none f) (sym e) ∙ h in
        absurd cc
    | no other ↦
        let back : g v' ≡ some k' =
          agree k' v' (sym (at_key_other same_key k k' none f other) ∙ h) in
        let differs : v' ≢ v =
          λ p. let q : some k ≡ some k' = sym (agree k v there) ∙ ap g (sym p) ∙ back in other cc in
        at_key_other same_value v v' none g differs ∙ back
  ]

pub record Agrees (s : Relation) : Type 0 where
  pub to_right : (v : VariableId) (i : ℕ) → s.left v ≡ some i → s.right i ≡ some v
  pub to_left : (v : VariableId) (i : ℕ) → s.right i ≡ some v → s.left v ≡ some i

abbrev pub removed : VariableId → ℕ → Relation → Relation
removed v i s = record {
  left = at_key same_variable v none s.left;
  right = at_key same_number i none s.right;
}

abbrev pub added : VariableId → ℕ → Relation → Relation
added v i s = record {
  left = at_key same_variable v (some i) s.left;
  right = at_key same_number i (some v) s.right;
}

pub erase_variable : VariableId → Relation → ℕ × Relation
erase_variable v s = elim (s.left v) [ none ↦ (0, s) | some i ↦ (1, removed v i s) ]

pub erase_id : ℕ → Relation → ℕ × Relation
erase_id i s = elim (s.right i) [ none ↦ (0, s) | some v ↦ erase_variable v s ]

erase_variable-none :
    (v : VariableId) (s : Relation) → s.left v ≡ none → erase_variable v s ≡ (0, s)
unfolding erase_variable
erase_variable-none v s h = rw (h, erase_variable) refl

erase_variable-some :
    (v : VariableId) (i : ℕ) (s : Relation)
    → s.left v ≡ some i
    → erase_variable v s ≡ (1, removed v i s)
unfolding erase_variable
erase_variable-some v i s h = rw (h, erase_variable) refl

erase_id-none : (i : ℕ) (s : Relation) → s.right i ≡ none → erase_id i s ≡ (0, s)
unfolding erase_id
erase_id-none i s h = rw (h, erase_id) refl

erase_id-some :
    (v : VariableId) (i : ℕ) (s : Relation) → s.right i ≡ some v → erase_id i s ≡ erase_variable v s
unfolding erase_id
erase_id-some v i s h = rw (h, erase_id) refl

erase_variable_other :
    (v w : VariableId) (s : Relation) → w ≢ v → (erase_variable v s).1.left w ≡ s.left w
erase_variable_other v w s differs = elim (Option-cases (s.left v)) [
  | inl h ↦ ap (λ r. r.1.left w) (erase_variable-none v s h)
  | inr (i, h) ↦
      ap (λ r. r.1.left w) (erase_variable-some v i s h)
      ∙ at_key_other same_variable v w none s.left differs
]

abbrev pub functions : Bimap Relation
functions = record {
  clear = λ s. record { left = λ v. none; right = λ i. none };
  find_left = λ v s. s.left v;
  find_right = λ i s. s.right i;
  insert = added;
  erase_left = erase_variable;
  erase_right = erase_id;
  rights = λ s. [];
}

pub added-Agrees :
    (v : VariableId) (i : ℕ) (s : Relation)
    → Agrees s
    → s.left v ≡ none
    → s.right i ≡ none
    → Agrees (added v i s)
added-Agrees v i s a new_left new_right = record {
  to_right =
      λ w j h. agree_added same_variable same_number s.left s.right a.to_right v w i j new_right h;
  to_left = λ w j h.
      agree_added same_number same_variable s.right s.left (λ k u. a.to_left u k) i j v w new_left
        h;
}

removed-Agrees :
    (v : VariableId) (i : ℕ) (s : Relation) → Agrees s → s.left v ≡ some i → Agrees (removed v i s)
removed-Agrees v i s a there = record {
  to_right =
      λ w j h. agree_removed same_variable same_number s.left s.right a.to_right v w i j there h;
  to_left = λ w j h.
      agree_removed same_number same_variable s.right s.left (λ k u. a.to_left u k) i j v w
        (a.to_right v i there) h;
}

pub functions-IsBimap : IsBimap functions Agrees
functions-IsBimap = record {
  right_of_left = λ v i s a h. a.to_right v i h;
  left_of_right = λ v i s a h. a.to_left v i h;
  insert_new = λ v w i s a new_left new_right differs. (
    at_key_same same_variable v (some i) s.left,
    at_key_other same_variable v w (some i) s.left differs,
    added-Agrees v i s a new_left new_right,
  );
  erase_left_none = erase_variable-none;
  erase_left_some = λ v i s a h. (
    removed v i s,
    erase_variable-some v i s h,
    at_key_same same_variable v none s.left,
    removed-Agrees v i s a h,
  );
  find-erase_left_other = erase_variable_other;
  erase_right_none = erase_id-none;
  erase_right_left = erase_id-some;
}

-- The capital letters of ASCII in lower case.
abbrev pub lower : List ℕ → List ℕ
lower [] = []
lower (c ∷ cs) = (if leb 65 c && leb c 90 then c + 32 else c) ∷ lower cs

abbrev pub speed : VariableId
speed = record { group = 97 ∷ []; name = 98 ∷ [] }

abbrev pub height : VariableId
height = record { group = 97 ∷ []; name = 99 ∷ [] }

pub height-speed : height ≢ speed
height-speed e =
    let p : ◌≡◌ {A = ℕ} 99 98 = (cons_injective (ap (λ v. v.name) e)).0 in absurd (omega arith)

abbrev pub nothing : Relation
nothing = record { left = λ v. none; right = λ i. none }

pub nothing-Agrees : Agrees nothing
nothing-Agrees = record { to_right = λ v i h. absurd cc; to_left = λ v i h. absurd cc }

-- A map that has another variable.
abbrev knows_height : Relation
knows_height = added height 5 nothing

abbrev wind : VariableId
wind = record { group = 97 ∷ []; name = 100 ∷ [] }

wind-speed : wind ≢ speed
wind-speed e =
    let p : ◌≡◌ {A = ℕ} 100 98 = (cons_injective (ap (λ v. v.name) e)).0 in absurd (omega arith)

wind-height : wind ≢ height
wind-height e =
    let p : ◌≡◌ {A = ℕ} 100 99 = (cons_injective (ap (λ v. v.name) e)).0 in absurd (omega arith)

register_subscription_lem_example :
    (s : Relation) × (register_subscription functions speed 1 knows_height ≡ (ok tt, s))
    × (get_subscription_id functions speed s ≡ ok 1)
    × (get_var_id functions 1 s ≡ ok speed)
    × (get_subscription_id functions height s ≡ get_subscription_id functions height knows_height)
    × (register_subscription functions speed 2 s
        ≡ (throws (variable_already_exists_error speed), s))
    × (register_subscription functions wind 1 s ≡ (throws (subscription_already_exists_error 1), s))
    × Agrees s
register_subscription_lem_example =
    register_subscription_lem functions-IsBimap speed height wind 1 2 knows_height
      (added-Agrees height 5 nothing nothing-Agrees refl refl)
      (at_key_other same_variable height speed (some 5) nothing.left (λ e. height-speed (sym e)))
      (at_key_other same_number 5 1 (some height) nothing.right (λ e. omega arith)) height-speed
      wind-speed (at_key_other same_variable height wind (some 5) nothing.left wind-height)
