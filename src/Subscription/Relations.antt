-- ===== src/Subscription/Relations.antt =====
-- What the subscription mapper uses of `boost::bimap<variable_id, subscription_id>`, and what it relies on.
use open_airbus_cockpit.Prelude.{ℕ, List, Option, none, some, ◌≡◌, ◌≢◌}
use open_airbus_cockpit.Var.Types.{VariableId}

-- `erase` by a key returns how many relations went.
pub record Bimap (S : Type 0) : Type 0 where
  pub clear : S → S
  pub find_left : VariableId → S → Option ℕ
  pub find_right : ℕ → S → Option VariableId
  pub insert : VariableId → ℕ → S → S
  pub erase_left : VariableId → S → ℕ × S
  pub erase_right : ℕ → S → ℕ × S
  -- the right keys, in the order in which the right view is gone through
  pub rights : S → List ℕ

-- For maps that the operations have made: each view finds what the other does; `insert` adds the relation if neither key is
-- there; `erase` takes away the one with its key, if there is one, and no other.
pub record IsBimap {S : Type 0} (map : Bimap S) (Valid : S → Type 0) : Type 0 where
  pub right_of_left :
      (v : VariableId) (i : ℕ) (s : S)
      → Valid s
      → map.find_left v s ≡ some i
      → map.find_right i s ≡ some v
  pub left_of_right :
      (v : VariableId) (i : ℕ) (s : S)
      → Valid s
      → map.find_right i s ≡ some v
      → map.find_left v s ≡ some i
  pub insert_new :
      (v w : VariableId) (i : ℕ) (s : S)
      → Valid s
      → map.find_left v s ≡ none
      → map.find_right i s ≡ none
      → w ≢ v
      → (map.find_left v (map.insert v i s) ≡ some i)
        × (map.find_left w (map.insert v i s) ≡ map.find_left w s)
        × Valid (map.insert v i s)
  pub erase_left_none :
      (v : VariableId) (s : S) → map.find_left v s ≡ none → map.erase_left v s ≡ (0, s)
  pub erase_left_some :
      (v : VariableId) (i : ℕ) (s : S)
      → Valid s
      → map.find_left v s ≡ some i
      → (s' : S) × (map.erase_left v s ≡ (1, s')) × (map.find_left v s' ≡ none) × Valid s'
  pub find-erase_left_other :
      (v w : VariableId) (s : S)
      → w ≢ v
      → map.find_left w (map.erase_left v s).1 ≡ map.find_left w s
  pub erase_right_none : (i : ℕ) (s : S) → map.find_right i s ≡ none → map.erase_right i s ≡ (0, s)
  pub erase_right_left :
      (v : VariableId) (i : ℕ) (s : S)
      → map.find_right i s ≡ some v
      → map.erase_right i s ≡ map.erase_left v s
