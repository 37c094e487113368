-- ===== src/Stream/Safe.antt =====
-- Reads on a stream that keeps its promise, whatever it has to deliver: they come to an end, and leave it ready.
use open_airbus_cockpit.Prelude.{
  ℕ, zero, suc, ◌≤◌, ◌<◌, ◌≡◌, inl, inr, arith, List, [], ◌++◌, Bool, true, false, Bool-cases,
  if◌then◌else◌, length, take, Outcome, ok, throws, undefined, diverges, and_then, ◌>>=◌, return,
  throw, ◌==◌,
}
use open_airbus_cockpit.Prelude.Words.{sub32, u32_mod, of_bytes}
use open_airbus_cockpit.Exception.{Exception, eof_error, Method}
use open_airbus_cockpit.Stream.Interface.{InputStream, IsInput}
use open_airbus_cockpit.Stream.{read_rounds, read_all, read_as, read_as_string}

-- A call that returns or throws.
pub data Ended {A : Type 0} : Outcome Exception A → Type 0 where
  returned : (a : A) → Ended (ok a)
  thrown : (e : Exception) → Ended (throws e)

module _ {S : Type 0} (Ready : S → Type 0) where
  pub record Safe {A : Type 0} (m : Method S A) : Type 0 where
    pub run : (s : S) → Ready s → Ended (m s).0 × Ready (m s).1

  pub return-Safe : {A : Type 0} (a : A) → Safe (return a)
  return-Safe a = record { run = λ s ready. (returned a, ready) }

  pub throw-Safe : {A : Type 0} (e : Exception) → Safe {A = A} (throw e)
  throw-Safe e = record { run = λ s ready. (thrown e, ready) }

  and_then-Safe :
      {A B : Type 0} (x : Outcome Exception A × S) (f : A → Method S B)
      → Ended x.0
      → Ready x.1
      → ((a : A) → Safe (f a))
      → Ended (and_then x f).0 × Ready (and_then x f).1
  and_then-Safe (ok a, s) f e ready next = (next a).run s ready
  and_then-Safe (throws a, s) f e ready next = (thrown a, ready)
  and_then-Safe (undefined, s) f e ready next = elim e [ ]
  and_then-Safe (diverges, s) f e ready next = elim e [ ]

  pub >>=-Safe :
      {A B : Type 0} (m : Method S A) (f : A → Method S B)
      → Safe m
      → ((a : A) → Safe (f a))
      → Safe (m >>= f)
  >>=-Safe m f first next = record {
    run = λ s ready. let (e, r) = first.run s ready in and_then-Safe (m s) f e r next;
  }

  pub if-Safe :
      {A : Type 0} (b : Bool) (m k : Method S A) → Safe m → Safe k → Safe (if b then m else k)
  if-Safe true m k h g = h
  if-Safe false m k h g = g

positive_length : (n : ℕ) → (n == 0) ≡ false → 0 < n
positive_length n h = ground arith

module _ {S : Type 0} {input : InputStream S} {content : S → List ℕ} {Ready : S → Type 0}
    (laws : IsInput input content Ready) where
  read_rounds-Safe :
      (fuel count : ℕ) → count ≤ fuel → count < u32_mod → Safe Ready (read_rounds input fuel count)
  unfolding read_rounds
  read_rounds-Safe zero count h k =
      let none_left : count ≡ 0 = omega arith in rw none_left (return-Safe Ready [])
  read_rounds-Safe (suc fuel) count h k = record {
    run = λ s ready. elim (Bool-cases (count == 0)) [
      | inl e ↦ rw e (returned [], ready)
      | inr e ↦
          let (xs, s', run, split, small, progress, ready') = laws.delivers s count ready in
          elim (Bool-cases (length xs == 0)) [
            | inl nothing ↦ rw (e, run, nothing) (thrown eof_error, ready')
            | inr some_read ↦
                let read_some = positive_length (length xs) some_read in
                let fewer : sub32 count (length xs) ≤ fuel = omega arith in
                let bound : sub32 count (length xs) < u32_mod = omega arith in
                let later =
                  >>=-Safe Ready (read_rounds input fuel (sub32 count (length xs)))
                    (λ rest. return (take (length xs) xs ++ rest))
                    (read_rounds-Safe fuel (sub32 count (length xs)) fewer bound)
                    (λ rest. return-Safe Ready (take (length xs) xs ++ rest)) in
                rw (e, run, some_read) (later.run s' ready')
          ]
    ];
  }

  pub read_all-Safe : (count : ℕ) → count < u32_mod → Safe Ready (read_all input count)
  unfolding read_all
  read_all-Safe count k = read_rounds-Safe count count (omega arith) k

  pub read_as-Safe : (n : ℕ) → n < u32_mod → Safe Ready (read_as input n)
  unfolding read_as
  read_as-Safe n k =
      >>=-Safe Ready (read_all input n) (λ xs. return (of_bytes xs)) (read_all-Safe n k)
        (λ xs. return-Safe Ready (of_bytes xs))

  pub read_as_string-Safe : (n : ℕ) → n < u32_mod → Safe Ready (read_as_string input n)
  unfolding read_as_string
  read_as_string-Safe n k = read_all-Safe n k
