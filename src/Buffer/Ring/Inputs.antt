-- ===== src/Buffer/Ring/Inputs.antt =====
-- A ring stream buffer that is not full is an input stream, so that whole reads and messages come out of it; with a mark
-- set, the bytes kept since the mark stay there.
use open_airbus_cockpit.Prelude.{
  none, ℕ, ◌<◌, min, ◌≡◌, refl, sym, ap, ◌∙◌, arith, List, ◌++◌, length, take, drop, length-take,
  take-append-drop, some, ok, inl,
}
use open_airbus_cockpit.Buffer.Interface.{Buffer, IsBuffer}
use open_airbus_cockpit.Stream.Interface.{IsInput}
use open_airbus_cockpit.Buffer.Ring.{Ring, read, set_mark, unset_mark, reset}
use open_airbus_cockpit.Buffer.Ring.Laws.{
  start_of, cap, IsValid, Took, contents, retained, length-contents, let_go,
}
use open_airbus_cockpit.Buffer.Ring.Window.{window, window_split}
use open_airbus_cockpit.Buffer.Ring.Reading.{ring_read_lem}
use open_airbus_cockpit.Buffer.Ring.Marks.{
  reset-some, set_mark-IsValid, set_mark-retained, reset-retained,
}
use open_airbus_cockpit.Buffer.Ring.Streams.{ring_input}

module _ {B : Type 0} {ops : Buffer B} {bytes : B → List ℕ} {Valid : B → Type 0}
    (laws : IsBuffer ops bytes Valid) where
  -- A ring that is not full and is being read from a mark, since which it has `kept`.
  pub record Marked (c m : ℕ) (kept : List ℕ) (r : Ring B) : Type 0 where
    pub valid : IsValid laws r
    pub size : cap laws r ≡ c
    pub unfull : r.bytes_written < cap laws r
    pub mark : r.mark ≡ some m
    pub since_mark : retained laws r ≡ kept

  -- A read from a ring that is not full.
  ring_delivers :
      (r : Ring B) (count : ℕ)
      → IsValid laws r
      → r.bytes_written < cap laws r
      → let k = min count (length (contents laws r)) in
        (r' : Ring B) × (read ops count r
          ≡ (ok (length (take k (contents laws r)), take k (contents laws r)), r'))
        × (contents laws r ≡ take k (contents laws r) ++ contents laws r')
        × (length (take k (contents laws r)) ≡ k)
        × (cap laws r' ≡ cap laws r)
        × Took laws r k r'
  ring_delivers r count v unfull =
      let k = min count (length (contents laws r)) in
      let (r', run, took) = ring_read_lem laws r count v (λ _ full. absurd (omega arith)) in
      let taken : length (take k (contents laws r)) ≡ k =
        omega (arith, length-take k (contents laws r)) in
      (
        r',
        run ∙ ap (λ n. (ok (n, take k (contents laws r)), r')) (sym taken),
        sym (take-append-drop k (contents laws r))
            ∙ ap (λ l. take k (contents laws r) ++ l) (sym took.left),
        taken,
        ap (λ b. ops.capacity b) took.same_self,
        took,
      )

  pub ring_input-IsInput :
      (c m : ℕ) (kept : List ℕ) → IsInput (ring_input ops) (contents laws) (Marked c m kept)
  ring_input-IsInput c m kept = record {
    delivers = λ r count ready.
        let size = length-contents laws r ready.valid in
        let k = min count (length (contents laws r)) in
        let (r', run, split, taken, same_cap, took) =
          ring_delivers r count ready.valid ready.unfull in
        let nothing_gone : let_go r.mark k ≡ 0 = rw ready.mark refl in
        (
          take k (contents laws r),
          r',
          run,
          split,
          omega arith,
          λ asked some_there. omega arith,
          record {
            valid = took.valid;
            size = same_cap ∙ ready.size;
            unfull = omega (arith, took.fewer, ready.unfull);
            mark = took.same_mark ∙ ready.mark;
            since_mark =
                took.kept ∙ ap (λ n. drop n (retained laws r)) nothing_gone ∙ ready.since_mark;
          },
        );
  }

  -- A ring that is not full and has no mark.
  pub record Unmarked (r : Ring B) : Type 0 where
    pub valid : IsValid laws r
    pub unfull : r.bytes_written < cap laws r
    pub mark : r.mark ≡ none

  pub fresh_input-IsInput : IsInput (ring_input ops) (contents laws) Unmarked
  fresh_input-IsInput = record {
    delivers = λ r count ready.
        let size = length-contents laws r ready.valid in
        let k = min count (length (contents laws r)) in
        let (r', run, split, taken, same_cap, took) =
          ring_delivers r count ready.valid ready.unfull in
        (
          take k (contents laws r),
          r',
          run,
          split,
          omega arith,
          λ asked some_there. omega arith,
          record {
            valid = took.valid;
            unfull = omega (arith, took.fewer, ready.unfull);
            mark = took.same_mark ∙ ready.mark;
          },
        );
  }

  -- A ring of capacity `c` that holds `bs`, between two messages.
  pub record Idle (c : ℕ) (bs : List ℕ) (r : Ring B) : Type 0 where
    pub valid : IsValid laws r
    pub size : cap laws r ≡ c
    pub fresh : r.dist_from_mark ≡ 0
    pub holds : contents laws r ≡ bs

  pub set_mark-Marked :
      (c : ℕ) (bs : List ℕ) (r : Ring B)
      → Idle c bs r
      → length bs < c
      → Marked c r.read_index bs (set_mark ops r) × (contents laws (set_mark ops r) ≡ bs)
  unfolding set_mark contents
  set_mark-Marked c bs r idle unfull =
      let all = length-contents laws r idle.valid in
      let same = ap length idle.holds in
      (
        record {
          valid = set_mark-IsValid laws r idle.valid idle.fresh;
          size = idle.size;
          unfull = omega (arith, idle.size);
          mark = refl;
          since_mark = set_mark-retained laws r idle.fresh ∙ idle.holds;
        },
        idle.holds,
      )

  -- The bytes still to be read are the last of those since the mark.
  pub Marked-suffix :
      (c m : ℕ) (kept : List ℕ) (r : Ring B)
      → Marked c m kept r
      → (taken : List ℕ) × (kept ≡ taken ++ contents laws r)
  unfolding contents retained
  Marked-suffix c m kept r ready =
      let v = ready.valid in
      let size = laws.length-bytes r.self v.self_valid in
      (
        window (bytes r.self) (start_of r.mark r.read_index) r.dist_from_mark,
        sym ready.since_mark
            ∙ window_split (bytes r.self) (start_of r.mark r.read_index) r.dist_from_mark
                r.bytes_written r.read_index (rw size v.start_in) (rw size v.read_in)
                (omega (arith, v.total)) (rw size v.from_start),
      )

  -- `reset` gives back the bytes since the mark.
  pub reset-Idle :
      (c m : ℕ) (kept : List ℕ) (r : Ring B) → Marked c m kept r → Idle c kept (reset ops r)
  reset-Idle c m kept r ready =
      let (v, whole) =
        reset-retained laws r ready.valid (λ e. let q = sym ready.mark ∙ e in absurd cc) in
      let same = reset-some laws r m ready.mark in
      record {
        valid = v;
        size = ap (cap laws) same ∙ ready.size;
        fresh = ap (λ s. s.dist_from_mark) same;
        holds = whole ∙ ready.since_mark;
      }

  -- `unset_mark` keeps the bytes that are still to be read.
  pub unset_mark-Idle :
      (c m : ℕ) (kept : List ℕ) (r : Ring B)
      → Marked c m kept r
      → Idle c (contents laws r) (unset_mark ops r)
  unfolding unset_mark contents
  unset_mark-Idle c m kept r ready =
      let v = ready.valid in
      record {
        valid = record {
          self_valid = v.self_valid;
          positive = v.positive;
          read_in = v.read_in;
          write_in = v.write_in;
          start_in = v.read_in;
          total = omega (arith, v.total);
          no_mark = λ _. refl;
          from_start = inl (omega arith);
          from_read = v.from_read;
        };
        size = ready.size;
        fresh = refl;
        holds = refl;
      }
