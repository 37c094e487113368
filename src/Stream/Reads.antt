-- ===== src/Stream/Reads.antt =====
-- Whole reads on a stream that keeps its promise.
use open_airbus_cockpit.Prelude.{
  ℕ, zero, suc, ◌-◌, ◌≤◌, ◌<◌, ◌≡◌, refl, sym, ap, ◌∙◌, arith, List, [], ◌∷◌, ◌++◌, length, drop,
  length-append, length-drop, append_split, length_zero, take_all, append_assoc, ok, throws,
  and_then, and_then-throws, ◌>>=◌, return, ◌==◌, false,
}
use open_airbus_cockpit.Prelude.Words.{sub32, u32_mod, of_bytes}
use open_airbus_cockpit.Exception.{eof_error, Method}
use open_airbus_cockpit.Stream.Interface.{InputStream, IsInput}
use open_airbus_cockpit.Stream.{read_rounds, read_all, read_as, read_as_string}

pub positive-ne-zero : (n : ℕ) → 0 < n → (n == 0) ≡ false
positive-ne-zero n h = ground arith

module _ {S : Type 0} {input : InputStream S} {content : S → List ℕ} {Ready : S → Type 0}
    (laws : IsInput input content Ready) where
  -- A read that takes exactly `bs` from the front of the stream and returns `a`.
  pub record Gives {A : Type 0} (m : Method S A) (a : A) (bs : List ℕ) : Type 0 where
    pub run :
        (s : S) (rest : List ℕ)
        → Ready s
        → content s ≡ bs ++ rest
        → (s' : S) × (m s ≡ (ok a, s')) × (content s' ≡ rest) × Ready s'

  pub return-Gives : {A : Type 0} (a : A) → Gives (return a) a []
  return-Gives a = record { run = λ s rest ready e. (s, refl, e, ready) }

  pub >>=-Gives :
      {A B : Type 0} {m : Method S A} (f : A → Method S B) {a : A} {b : B} (bs cs : List ℕ)
      → Gives m a bs
      → Gives (f a) b cs
      → Gives (m >>= f) b (bs ++ cs)
  >>=-Gives f bs cs g h = record {
    run = λ s rest ready e.
        let first = g.run s (cs ++ rest) ready (e ∙ append_assoc bs cs rest) in
        let second = h.run first.0 rest first.3 first.2 in
        (second.0, rw first.1 second.1, second.2, second.3);
  }

  -- One round of the loop.
  read_rounds_step :
      (fuel count : ℕ) (xs : List ℕ) (s s' : S)
      → input.read count s ≡ (ok (length xs, xs), s')
      → 0 < count
      → 0 < length xs
      → read_rounds input (suc fuel) count s
        ≡ and_then
            (read_rounds input fuel (sub32 count (length xs)) s')
            (λ rest. return (xs ++ rest))
  unfolding read_rounds
  read_rounds_step fuel count xs s s' e h k =
      rw
        (
          positive-ne-zero count h,
          e,
          positive-ne-zero (length xs) k,
          take_all (length xs) xs (omega arith),
        )
        refl

  read_rounds_end :
      (fuel count : ℕ) (s s' : S)
      → input.read count s ≡ (ok (0, []), s')
      → 0 < count
      → read_rounds input (suc fuel) count s ≡ (throws eof_error, s')
  unfolding read_rounds
  read_rounds_end fuel count s s' e h = rw (positive-ne-zero count h, e) refl

  read_rounds-Gives :
      (fuel : ℕ) (bs : List ℕ)
      → length bs ≤ fuel
      → length bs < u32_mod
      → Gives (read_rounds input fuel (length bs)) bs bs
  unfolding read_rounds
  read_rounds-Gives zero [] h k = return-Gives []
  read_rounds-Gives zero (b ∷ bs) h k = absurd (omega arith)
  read_rounds-Gives (suc fuel) [] h k = return-Gives []
  read_rounds-Gives (suc fuel) (b ∷ bs) h k = record {
    run = λ s rest ready e.
        let got = laws.delivers s (length (b ∷ bs)) ready in
        let xs = got.0 in
        let split = append_split xs (content got.1) (b ∷ bs) rest (sym got.3 ∙ e) got.4 in
        let left = drop (length xs) (b ∷ bs) in
        let some_left : 0 < length (content s) = rw e (omega arith) in
        let progress : 0 < length xs = got.5 (omega arith) some_left in
        let count : length left ≡ length (b ∷ bs) - length xs = length-drop (length xs) (b ∷ bs) in
        let counted : sub32 (length (b ∷ bs)) (length xs) ≡ length left = omega arith in
        let later = read_rounds-Gives fuel left (omega arith) (omega arith) in
        let done = later.run got.1 rest got.6 split.1 in
        (
          done.0,
          read_rounds_step fuel (length (b ∷ bs)) xs s got.1 got.2 (omega arith) progress
              ∙ ap (λ n. and_then (read_rounds input fuel n got.1) (λ ys. return (xs ++ ys)))
                  counted
              ∙ ap (λ r. and_then r (λ ys. return (xs ++ ys))) done.1
              ∙ ap (λ l. (ok l, done.0)) (sym split.0),
          done.2,
          done.3,
        );
  }

  pub read_all-Gives :
      (bs : List ℕ) → length bs < u32_mod → Gives (read_all input (length bs)) bs bs
  unfolding read_all
  read_all-Gives bs k = read_rounds-Gives (length bs) bs (omega arith) k

  -- On a stream that keeps its promise, `read_all` of fewer than 2^32 bytes that the stream has returns just those
  -- bytes, however the stream divides them, and leaves the rest.
  pub read_all_exact :
      (bs rest : List ℕ) (s : S)
      → length bs < u32_mod
      → Ready s
      → content s ≡ bs ++ rest
      → (s' : S) × (read_all input (length bs) s ≡ (ok bs, s')) × (content s' ≡ rest) × Ready s'
  read_all_exact bs rest s h = (read_all-Gives bs h).run s rest

  pub read_as-Gives :
      (n : ℕ) (bs : List ℕ) → length bs ≡ n → n < u32_mod → Gives (read_as input n) (of_bytes bs) bs
  unfolding read_as
  read_as-Gives n bs e k = record {
    run = λ s rest ready h.
        let all = (read_all-Gives bs (omega arith)).run s rest ready h in
        (
          all.0,
          ap (λ k. and_then (read_all input k s) (λ xs. return (of_bytes xs))) (sym e)
              ∙ ap (λ r. and_then r (λ xs. return (of_bytes xs))) all.1,
          all.2,
          all.3,
        );
  }

  -- What a read of more than the stream has comes to.
  abbrev Fails : {A : Type 0} → Method S A → S → Type 0
  Fails m s = (s' : S) × (m s ≡ (throws eof_error, s')) × (content s' ≡ []) × Ready s'

  read_rounds_after :
      (fuel count : ℕ) (xs : List ℕ) (s s' : S)
      → input.read (suc count) s ≡ (ok (length xs, xs), s')
      → content s ≡ xs ++ content s'
      → length xs ≤ suc count
      → (0 < length (content s) → 0 < length xs)
      → suc count < u32_mod
      → length (content s) < suc count
      → Ready s'
      → ((n : ℕ) → n ≤ count → length (content s') < n → Fails (read_rounds input fuel n) s')
      → Fails (read_rounds input (suc fuel) (suc count)) s
  read_rounds_after fuel count [] s s' e split h progress k short ready later =
      let empty : content s ≡ [] = length_zero (content s) (ground arith) in
      (s', read_rounds_end fuel (suc count) s s' e (omega arith), sym split ∙ empty, ready)
  read_rounds_after fuel count (x ∷ xs) s s' e split h progress k short ready later =
      let left : suc count - length (x ∷ xs) ≡ sub32 (suc count) (length (x ∷ xs)) = omega arith in
      let total = ap length split in
      let parts = length-append (x ∷ xs) (content s') in
      let failed = later (sub32 (suc count) (length (x ∷ xs))) (omega arith) (omega arith) in
      (
        failed.0,
        read_rounds_step fuel (suc count) (x ∷ xs) s s' e (omega arith) (omega arith)
            ∙ ap (λ r. and_then r (λ ys. return (x ∷ xs ++ ys))) failed.1,
        failed.2,
        failed.3,
      )

  read_rounds-Fails :
      (fuel count : ℕ) (s : S)
      → Ready s
      → count ≤ fuel
      → count < u32_mod
      → length (content s) < count
      → Fails (read_rounds input fuel count) s
  read_rounds-Fails zero count s ready h k short = absurd (omega arith)
  read_rounds-Fails (suc fuel) zero s ready h k short = absurd (omega arith)
  read_rounds-Fails (suc fuel) (suc count) s ready h k short =
      let got = laws.delivers s (suc count) ready in
      read_rounds_after fuel count got.0 s got.1 got.2 got.3 got.4 (got.5 (omega arith)) k short
        got.6
        (λ n hn short'. read_rounds-Fails fuel n got.1 got.6 (omega arith) (omega arith) short')

  -- On a stream that keeps its promise, `read_all` of fewer than 2^32 bytes, but more than the stream has, throws
  -- `eof_error`, having taken all that there was.
  pub read_all_short :
      (count : ℕ) (s : S)
      → Ready s
      → count < u32_mod
      → length (content s) < count
      → Fails (read_all input count) s
  unfolding read_all
  read_all_short count s ready k short = read_rounds-Fails count count s ready (omega arith) k short

  pub read_as_string-Gives :
      (bs : List ℕ) → length bs < u32_mod → Gives (read_as_string input (length bs)) bs bs
  unfolding read_as_string
  read_as_string-Gives bs k = read_all-Gives bs k

  pub read_as_short :
      (n : ℕ) (s : S) → Ready s → n < u32_mod → length (content s) < n → Fails (read_as input n) s
  unfolding read_as
  read_as_short n s ready k short =
      let (s', run, empty, ready') = read_all_short n s ready k short in
      (s', and_then-throws _ run, empty, ready')
