-- ===== src/Stream/Writes.antt =====
-- Whole writes on a stream that keeps its promise.
use open_airbus_cockpit.Prelude.{
  ℕ, zero, suc, ◌+◌, ◌≤◌, ◌<◌, ◌≡◌, refl, sym, ap, ◌∙◌, arith, List, [], ◌∷◌, ◌++◌, length, take,
  drop, length-append, length-drop, take-append-drop, append-nil, append_assoc, ok, and_then, ◌>>◌,
  return,
}
use open_airbus_cockpit.Prelude.Words.{to_bytes}
use open_airbus_cockpit.Exception.{Method}
use open_airbus_cockpit.Stream.Interface.{OutputStream, IsOutput}
use open_airbus_cockpit.Stream.Reads.{positive-ne-zero}
use open_airbus_cockpit.Stream.{write_rounds, write_all, write_as, write_as_string}

module _ {S : Type 0} {output : OutputStream S} {content : S → List ℕ} {room : S → ℕ}
    {Ready : S → Type 0} (laws : IsOutput output content room Ready) where
  -- A write that appends exactly `bs`, on a stream with room for them.
  pub record Emits (m : Method S (Unit {0})) (bs : List ℕ) : Type 0 where
    pub run :
        (s : S)
        → Ready s
        → length bs ≤ room s
        → (s' : S) × (m s ≡ (ok tt, s'))
          × (content s' ≡ content s ++ bs)
          × (room s' + length bs ≡ room s)
          × Ready s'

  pub return-Emits : Emits (return tt) []
  return-Emits = record {
    run = λ s ready h. (s, refl, sym (append-nil (content s)), omega arith, ready);
  }

  pub >>-Emits :
      {m k : Method S (Unit {0})} (bs cs : List ℕ)
      → Emits m bs
      → Emits k cs
      → Emits (m >> k) (bs ++ cs)
  >>-Emits {k = k} bs cs g h = record {
    run = λ s ready fits.
        let total = length-append bs cs in
        let first = g.run s ready (omega arith) in
        let second = h.run first.0 first.4 (omega arith) in
        (
          second.0,
          ap (λ r. and_then r (λ _. k)) first.1 ∙ second.1,
          second.2 ∙ ap (λ xs. xs ++ cs) first.2 ∙ append_assoc (content s) bs cs,
          omega arith,
          second.4,
        );
  }

  -- One round of the loop.
  write_rounds_step :
      (fuel n : ℕ) (src : List ℕ) (s s' : S)
      → output.write src s ≡ (ok n, s')
      → 0 < length src
      → 0 < n
      → write_rounds output (suc fuel) src s ≡ write_rounds output fuel (drop n src) s'
  unfolding write_rounds
  write_rounds_step fuel n src s s' e h k =
      rw (positive-ne-zero (length src) h, e, positive-ne-zero n k) refl

  write_rounds-Emits :
      (fuel : ℕ) (bs : List ℕ) → length bs ≤ fuel → Emits (write_rounds output fuel bs) bs
  unfolding write_rounds
  write_rounds-Emits zero [] h = return-Emits
  write_rounds-Emits zero (b ∷ bs) h = absurd (omega arith)
  write_rounds-Emits (suc fuel) [] h = return-Emits
  write_rounds-Emits (suc fuel) (b ∷ bs) h = record {
    run = λ s ready fits.
        let got = laws.accepts s (b ∷ bs) ready in
        let left = drop got.0 (b ∷ bs) in
        let count = length-drop got.0 (b ∷ bs) in
        let progress = got.6 (omega arith) (omega arith) in
        let later =
          (write_rounds-Emits fuel left (omega arith)).run got.1 got.7
            (omega (arith, got.4, got.5)) in
        let joined = take-append-drop got.0 (b ∷ bs) in
        (
          later.0,
          write_rounds_step fuel got.0 (b ∷ bs) s got.1 got.2 (omega arith) progress ∙ later.1,
          later.2
              ∙ ap (λ xs. xs ++ left) got.3
              ∙ append_assoc (content s) (take got.0 (b ∷ bs)) left
              ∙ ap (λ xs. content s ++ xs) joined,
          omega (arith, got.4, got.5, later.3),
          later.4,
        );
  }

  pub write_all-Emits : (bs : List ℕ) → Emits (write_all output bs) bs
  unfolding write_all
  write_all-Emits bs = write_rounds-Emits (length bs) bs (omega arith)

  -- On a stream that keeps its promise and has room for them, `write_all` appends all of its bytes, however the stream
  -- divides them, and uses just as much room.
  pub write_all_appends :
      (bs : List ℕ) (s : S)
      → Ready s
      → length bs ≤ room s
      → (s' : S) × (write_all output bs s ≡ (ok tt, s'))
        × (content s' ≡ content s ++ bs)
        × (room s' + length bs ≡ room s)
        × Ready s'
  write_all_appends bs = (write_all-Emits bs).run

  pub write_as-Emits : (n v : ℕ) → Emits (write_as output n v) (to_bytes n v)
  unfolding write_as
  write_as-Emits n v = write_all-Emits (to_bytes n v)

  pub write_as_string-Emits : (bs : List ℕ) → Emits (write_as_string output bs) bs
  unfolding write_as_string
  write_as_string-Emits bs = write_all-Emits bs
