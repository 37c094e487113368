-- ===== src/Buffer/Ring/Marks.antt =====
-- `set_mark` and `reset` of the ring stream buffer, and the rings on which its `write` does not return.
use open_airbus_cockpit.Prelude.{
  ℕ, zero, suc, ◌+◌, ◌≤◌, min, ◌≡◌, ◌≢◌, refl, sym, ap, ap₂, ◌∙◌, inl, inr, arith, List, [], none,
  some, Option-cases, length, take, le→ltb, ok, diverges, and_then-diverges, return,
}
use open_airbus_cockpit.Prelude.Words.{add32, sub32}
use open_airbus_cockpit.Buffer.Interface.{Buffer, IsBuffer}
use open_airbus_cockpit.Buffer.Ring.Laws.{start_of, Ends-add, cap, IsValid, contents, retained}
use open_airbus_cockpit.Buffer.Ring.Window.{window}
use open_airbus_cockpit.Buffer.Ring.Reading.{ring_read_lem}
use open_airbus_cockpit.Buffer.Ring.{
  Ring, set_mark, reset, read, write_rounds, available_for_write, on_self, put_on, write_to,
}

module _ {B : Type 0} {ops : Buffer B} {bytes : B → List ℕ} {Valid : B → Type 0}
    (laws : IsBuffer ops bytes Valid) where
  pub set_mark-IsValid :
      (r : Ring B) → IsValid laws r → r.dist_from_mark ≡ 0 → IsValid laws (set_mark ops r)
  unfolding set_mark
  set_mark-IsValid r v fresh = record {
    self_valid = v.self_valid;
    positive = v.positive;
    read_in = v.read_in;
    write_in = v.write_in;
    start_in = v.read_in;
    total = v.total;
    no_mark = λ _. fresh;
    from_start = inl (omega arith);
    from_read = v.from_read;
  }

  pub set_mark-retained :
      (r : Ring B) → r.dist_from_mark ≡ 0 → retained laws (set_mark ops r) ≡ contents laws r
  unfolding set_mark contents retained
  set_mark-retained r fresh = ap (λ n. window (bytes r.self) r.read_index n) (omega arith)

  -- The ring that reads again from its mark.
  abbrev pub rewound : ℕ → Ring B → Ring B
  rewound m r = record r {
    bytes_written = add32 r.bytes_written r.dist_from_mark;
    dist_from_mark = 0;
    read_index = m;
  }

  pub reset-none : (r : Ring B) → r.mark ≡ none → reset ops r ≡ r
  unfolding reset
  reset-none r e = ap (λ m. elim m [ none ↦ r | some k ↦ rewound k r ]) e

  pub reset-some : (r : Ring B) (m : ℕ) → r.mark ≡ some m → reset ops r ≡ rewound m r
  unfolding reset
  reset-some r m e = rw e refl

  rewound-IsValid :
      (r : Ring B) (m : ℕ) → IsValid laws r → r.mark ≡ some m → IsValid laws (rewound m r)
  rewound-IsValid r m v e =
      let small = laws.capacity_bound r.self v.self_valid in
      let all : r.dist_from_mark + r.bytes_written ≡ add32 r.bytes_written r.dist_from_mark =
        omega (arith, v.total) in
      let at_mark : start_of r.mark r.read_index ≡ m = rw e refl in
      let still : start_of r.mark m ≡ m = rw e refl in
      record {
        self_valid = v.self_valid;
        positive = v.positive;
        read_in = omega (arith, v.start_in);
        write_in = v.write_in;
        start_in = omega (arith, v.start_in);
        total = omega (arith, v.total);
        no_mark = λ _. refl;
        from_start = inl (omega arith);
        from_read = rw all at (
            rw at_mark at (
              Ends-add (cap laws r) (start_of r.mark r.read_index) r.dist_from_mark r.read_index
                r.bytes_written r.write_index v.positive v.start_in v.total v.from_start
                v.from_read));
      }

  rewound-contents :
      (r : Ring B) (m : ℕ)
      → IsValid laws r
      → r.mark ≡ some m
      → contents laws (rewound m r) ≡ retained laws r
  unfolding contents retained
  rewound-contents r m v e =
      let small = laws.capacity_bound r.self v.self_valid in
      let all : add32 r.bytes_written r.dist_from_mark ≡ r.dist_from_mark + r.bytes_written =
        omega (arith, v.total) in
      let at_mark : m ≡ start_of r.mark r.read_index = rw e refl in
      ap₂ (λ i n. window (bytes r.self) i n) at_mark all

  -- On a valid ring with a mark, `reset` leaves a valid ring that holds the bytes read since the mark again, in
  -- front of the ones that were still to be read.
  pub reset-retained :
      (r : Ring B)
      → IsValid laws r
      → r.mark ≢ none
      → IsValid laws (reset ops r) × (contents laws (reset ops r) ≡ retained laws r)
  reset-retained r v marked = elim (Option-cases r.mark) [
    | inl e ↦ absurd (marked e)
    | inr (m, e) ↦
        let same = sym (reset-some r m e) in
        (
          rw same at (rewound-IsValid r m v e),
          ap (contents laws) (sym same) ∙ rewound-contents r m v e,
        )
  ]

  -- On a valid ring that has read nothing since a mark, `set_mark`, a `read` that the ring serves, and `reset` give a
  -- valid ring with the bytes there were before: what was read can be read again.
  pub mark_read_reset :
      (r : Ring B) (asked : ℕ)
      → IsValid laws r
      → r.dist_from_mark ≡ 0
      → let k = min asked (length (contents laws r)) in
        (r.read_index ≡ r.write_index
          → r.bytes_written ≡ cap laws r
          → r.read_index + k ≤ cap laws r)
        → (r' : Ring B) × (read ops asked (set_mark ops r) ≡ (ok (k, take k (contents laws r)), r'))
          × IsValid laws (reset ops r')
          × (contents laws (reset ops r') ≡ contents laws r)
  unfolding set_mark contents
  mark_read_reset r asked v fresh readable =
      let marked : Ring B = record r { mark = some r.read_index } in
      let (r', run, took) = ring_read_lem laws marked asked (set_mark-IsValid r v fresh) readable in
      let (valid, whole) = reset-retained r' took.valid (λ e. cc) in
      (r', run, valid, whole ∙ took.kept ∙ set_mark-retained r fresh)

  -- On a ring over a buffer without capacity, whose indices are zero, no number of calls of `write` in one
  -- another is enough: it never returns, whatever it is to write.
  pub write_diverges :
      (fuel : ℕ) (src : List ℕ) (r : Ring B)
      → Valid r.self
      → cap laws r ≡ 0
      → r.read_index ≡ 0
      → r.write_index ≡ 0
      → (write_rounds ops fuel src r).0 ≡ diverges
  unfolding write_rounds on_self put_on
  write_diverges zero src r v empty at_read at_write = refl
  write_diverges (suc fuel) src r v empty at_read at_write =
      let rem : sub32 (cap laws r) r.write_index ≡ 0 = omega arith in
      let count = min (length src) (available_for_write ops r) in
      let final : min count 0 ≡ 0 = omega arith in
      let (b, run, image, same, vb) = laws.write_within r.self [] r.write_index v (omega arith) in
      let at_start = write_to ops 0 (put_on ops 0 (record r { self = b })) in
      rw
        (
          le→ltb r.write_index r.read_index (omega arith),
          rem,
          final,
          run,
          le→ltb count 0 (omega arith),
        )
        (and_then-diverges (write_rounds ops fuel (take count src) at_start)
          (λ n. return (add32 0 n))
          (write_diverges fuel (take count src) at_start vb (omega arith) at_read refl))
