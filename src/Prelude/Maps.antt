-- ===== src/Prelude/Maps.antt =====
-- `std::map` and `std::unordered_map` as lists of keys and values without repeated keys. No source file
-- corresponds to this module.
use Prim.Native.Nat.{ℕ}
use mathlib.Core.Path.{◌≡◌, refl, sym, ap, ap₂, ◌∙◌}
use mathlib.Core.Logic.{◌≢◌, inl, inr}
use open_airbus_cockpit.Prelude.Tests.{◌==◌, ==_iff, Bool-cases}
use open_airbus_cockpit.Prelude.Lists.{cons_injective}
use mathlib.Core.Option.{Option, none, some}
use mathlib.Core.List.{List, [], ◌∷◌}
use native.Mathlib.Omega.{arith}

abbrev pub Map : Type 0 → Type 0 → Type 0
Map K V = List (K × V)

instance abbrev pub same_number : Discrete ℕ
same_number a b = elim (Bool-cases (a == b)) [
  | inl e ↦ yes ((==_iff a b).0 e)
  | inr e ↦ no (λ p. absurd (ground (arith, ==_iff a b)))
]

instance abbrev pub same_string : Discrete (List ℕ)
same_string [] [] = yes refl
same_string [] (y ∷ ys) = no (λ p. absurd cc)
same_string (x ∷ xs) [] = no (λ p. absurd cc)
same_string (x ∷ xs) (y ∷ ys) = elim (same_number x y) [
  | no h ↦ no (λ p. h (cons_injective p).0)
  | yes e ↦ elim (same_string xs ys) [
    | yes es ↦ yes (ap₂ ◌∷◌ e es)
    | no h ↦ no (λ p. h (cons_injective p).1)
  ]
]

module _ {K V : Type 0} ⦃same : Discrete K⦄ where
  -- `find`.
  unfoldable pub find : K → Map K V → Option V
  find k [] = none
  find k ((j, v) ∷ m) = elim (same k j) [ yes _ ↦ some v | no _ ↦ find k m ]

  -- `erase`.
  unfoldable pub erase : K → Map K V → Map K V
  erase k [] = []
  erase k ((j, v) ∷ m) = elim (same k j) [ yes _ ↦ erase k m | no _ ↦ (j, v) ∷ erase k m ]

  -- `m[k] = v`.
  unfoldable pub assign : K → V → Map K V → Map K V
  unfolding erase
  assign k v m = (k, v) ∷ erase k m

  pub find-nil : (k : K) → find k [] ≡ none
  unfolding find
  find-nil k = refl

  -- What is found is found behind an entry with another value.
  pub find-behind :
      (k j : K) (v w : V) (m : Map K V) → find k ((j, v) ∷ m) ≡ some w → v ≢ w → find k m ≡ some w
  unfolding find
  find-behind k j v w m =
      elim (same k j)
        as (λ d. elim d [ yes _ ↦ some v | no _ ↦ find k m ] ≡ some w → v ≢ w → find k m ≡ some w) [
          | yes e ↦ λ q ne. absurd (ne cc)
          | no _ ↦ λ q _. q
        ]

  pub find-erase_same : (k : K) (m : Map K V) → find k (erase k m) ≡ none
  unfolding find erase
  find-erase_same k [] = refl
  find-erase_same k ((j, v) ∷ m) = ground (arith, find-erase_same k m)

  pub find-erase_other : (k l : K) (m : Map K V) → l ≢ k → find l (erase k m) ≡ find l m
  unfolding find erase
  find-erase_other k l [] h = refl
  find-erase_other k l ((j, v) ∷ m) h = ground (arith, find-erase_other k l m h)

  pub find-assign_same : (k : K) (v : V) (m : Map K V) → find k (assign k v m) ≡ some v
  unfolding find assign
  find-assign_same k v m = ground arith

  pub find-assign_other : (k l : K) (v : V) (m : Map K V) → l ≢ k → find l (assign k v m) ≡ find l m
  unfolding find assign
  find-assign_other k l v m h = ground (arith, find-erase_other k l m h)

  -- Keys that are found differently differ.
  pub keys_differ : (m : Map K V) (k l : K) (v : V) → find k m ≡ some v → find l m ≡ none → k ≢ l
  keys_differ m k l v h n e = let q : some v ≡ none = sym h ∙ ap (λ j. find j m) e ∙ n in absurd cc

  pub keys_apart :
      (m : Map K V) (k l : K) (v w : V) → find k m ≡ some v → find l m ≡ some w → v ≢ w → k ≢ l
  keys_apart m k l v w h n d e = let q : some v ≡ some w = sym h ∙ ap (λ j. find j m) e ∙ n in d cc
