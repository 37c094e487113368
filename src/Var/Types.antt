-- ===== src/Var/Types.antt =====
-- The types of variables, and their identifiers, in flightvars/include/flightvars/var.h.
use Prim.Native.Nat.{ℕ}
use mathlib.Core.List.{List}
use mathlib.Core.Bool.{Bool, true, false}
use mathlib.Core.Path.{ap, ap₂}
use open_airbus_cockpit.Prelude.Maps.{same_string}

pub data VariableType : Type 0 where
  boolean byte word dword float : VariableType

pub VariableType-discrete : Discrete VariableType
VariableType-discrete = hlevel

-- `==` on types.
abbrev pub same_type : VariableType → VariableType → Bool
same_type boolean boolean = true
same_type byte byte = true
same_type word word = true
same_type dword dword = true
same_type float float = true
same_type _ _ = false

-- `variable_id`; a string is the list of its bytes.
pub record VariableId : Type 0 where
  pub group : List ℕ
  pub name : List ℕ

-- The constructor of `variable_id`, which makes the identifiers of the program, over `boost::algorithm::to_lower_copy`.
abbrev pub variable_id : (List ℕ → List ℕ) → (group name : List ℕ) → VariableId
variable_id to_lower_copy group name = record {
  group = to_lower_copy group;
  name = to_lower_copy name;
}

-- `operator ==` on identifiers, which their containers use.
instance abbrev pub same_variable : Discrete VariableId
same_variable v w = elim (same_string v.group w.group) [
  | no h ↦ no (λ p. h (ap (λ u. u.group) p))
  | yes e ↦ elim (same_string v.name w.name) [
    | no h ↦ no (λ p. h (ap (λ u. u.name) p))
    | yes f ↦ yes (ap₂ (λ g n. record { group = g; name = n }) e f)
  ]
]
