-- ===== src/Prelude/Outcomes.antt =====
-- What a call of the program comes to, and the two monads in which calls are sequenced.

use mathlib.Core.Option.{Option, none, some}
use mathlib.Core.Path.{◌≡◌, refl, ap}

-- A call returns, throws an exception of type `E`, has undefined behaviour, or goes on for ever.
pub data Outcome {ℓ} (E : Type 0) (A : Type ℓ) : Type ℓ where
  ok : A → Outcome E A
  throws : E → Outcome E A
  undefined : Outcome E A
  diverges : Outcome E A

-- A call that also changes an object: what it had changed stays changed when it throws.
abbrev pub Action : Type 0 → Type 0 → Type 0 → Type 0
Action E S A = S → Outcome E A × S

abbrev pub and_then : {E S A B : Type 0} → Outcome E A × S → (A → Action E S B) → Outcome E B × S
and_then (ok a, s) f = f a s
and_then (throws e, s) f = (throws e, s)
and_then (undefined, s) f = (undefined, s)
and_then (diverges, s) f = (diverges, s)

infixl 5 ◌>>=◌ ◌>>◌
abbrev pub ◌>>=◌ : {E S A B : Type 0} → Action E S A → (A → Action E S B) → Action E S B
◌>>=◌ m f s = and_then (m s) f

abbrev pub ◌>>◌ : {E S A B : Type 0} → Action E S A → Action E S B → Action E S B
m >> k = m >>= λ _. k

abbrev pub return : {E S A : Type 0} → A → Action E S A
return a s = (ok a, s)

abbrev pub throw : {E S A : Type 0} → E → Action E S A
throw e s = (throws e, s)

-- A call inside another one that has no object of its own.
abbrev pub on_ok : {E A B : Type 0} → Outcome E A → (A → Outcome E B) → Outcome E B
on_ok (ok a) f = f a
on_ok (throws e) f = throws e
on_ok undefined f = undefined
on_ok diverges f = diverges

-- The `catch` clauses of a `try`: what is done for the exceptions that they catch.
abbrev pub catching :
    {E S A : Type 0} → Outcome E A × S → (E → Option (Action E S A)) → Outcome E A × S
catching (ok a, s) clauses = (ok a, s)
catching (throws e, s) clauses = elim (clauses e) [ none ↦ (throws e, s) | some f ↦ f s ]
catching (undefined, s) clauses = (undefined, s)
catching (diverges, s) clauses = (diverges, s)

-- The exceptions of a call inside another one, as exceptions of that.
abbrev pub raise : {E F A : Type 0} → (E → F) → Outcome E A → Outcome F A
raise into (ok a) = ok a
raise into (throws e) = throws (into e)
raise into undefined = undefined
raise into diverges = diverges

-- A call that leaves the object alone.
abbrev pub lift : {E S A : Type 0} → Outcome E A → Action E S A
lift r s = (r, s)

-- What follows a call that goes on for ever does not run.
pub and_then-diverges :
    {E S A B : Type 0} (x : Outcome E A × S) (f : A → Action E S B)
    → x.0 ≡ diverges
    → (and_then x f).0 ≡ diverges
and_then-diverges (ok a, s) f e = absurd cc
and_then-diverges (throws a, s) f e = absurd cc
and_then-diverges (undefined, s) f e = absurd cc
and_then-diverges (diverges, s) f e = refl

-- What follows a call that returns goes on from its result.
pub and_then-ok :
    {E S A B : Type 0} {x : Outcome E A × S} {a : A} {s : S} (f : A → Action E S B)
    → x ≡ (ok a, s)
    → and_then x f ≡ f a s
and_then-ok f e = ap (λ r. and_then r f) e

-- What follows a call that throws does not run.
pub and_then-throws :
    {E S A B : Type 0} {x : Outcome E A × S} {e : E} {s : S} (f : A → Action E S B)
    → x ≡ (throws e, s)
    → and_then x f ≡ (throws e, s)
and_then-throws f e = ap (λ r. and_then r f) e

pub and_then-return :
    {E S : Type 0} (x : Outcome E (Unit {0}) × S) → and_then x (λ _. return tt) ≡ x
and_then-return (ok a, s) = refl
and_then-return (throws e, s) = refl
and_then-return (undefined, s) = refl
and_then-return (diverges, s) = refl

pub and_then-and_then :
    {E S A B C : Type 0} (x : Outcome E A × S) (f : A → Action E S B) (g : B → Action E S C)
    → and_then (and_then x f) g ≡ and_then x (λ a s. and_then (f a s) g)
and_then-and_then (ok a, s) f g = refl
and_then-and_then (throws e, s) f g = refl
and_then-and_then (undefined, s) f g = refl
and_then-and_then (diverges, s) f g = refl
