-- ===== src/Buffer/Ring/Reading.antt =====
-- `read` of the ring stream buffer takes the oldest bytes.
use open_airbus_cockpit.Prelude.{
  ℕ, suc, ◌+◌, ◌-◌, ◌≤◌, ◌<◌, min, ◌≡◌, refl, sym, ap, ap₂, ◌∙◌, inl, inr, arith, List, ◌++◌, ltb,
  ltb→lt, ltb→le, Bool-cases, le→ltb, length, take, ok, throws, and_then, return,
}
use open_airbus_cockpit.Prelude.Words.{add32}
use open_airbus_cockpit.Exception.{Exception}
use open_airbus_cockpit.Buffer.Interface.{Buffer, IsBuffer}
use open_airbus_cockpit.Buffer.Ring.Window.{Ends, take-add}
use open_airbus_cockpit.Buffer.Ring.Laws.{
  cap, IsValid, contents, taken, Took, taken-Took, Took-Took, length-contents,
}
use open_airbus_cockpit.Buffer.Ring.{Ring, read_rounds, read}
use open_airbus_cockpit.Buffer.Ring.ReadRuns.{read_flat_run, read_before_run, read_across_run}

-- What is asked for lies in one piece, where writing is not behind reading.
fits_in_one :
    (c r w n k : ℕ)
    → 0 < c
    → r ≤ w
    → w ≤ c
    → n ≤ c
    → k ≤ n
    → Ends c r n w
    → (r ≡ w → n ≡ c → r + k ≤ c)
    → r + k ≤ c
fits_in_one c r w n k hc order hw hn hk (inl p) readable = omega arith
fits_in_one c r w n k hc order hw hn hk (inr (inl p)) readable =
    readable (omega arith) (omega arith)
fits_in_one c r w n k hc order hw hn hk (inr (inr p)) readable = absurd (omega arith)

module _ {B : Type 0} {ops : Buffer B} {bytes : B → List ℕ} {Valid : B → Type 0}
    (laws : IsBuffer ops bytes Valid) where
  -- What a read comes to.
  abbrev pub Reads : ℕ → ℕ → ℕ → Ring B → Type 0
  Reads fuel asked k r =
      (r' : Ring B) × (read_rounds ops fuel asked r ≡ (ok (k, take k (contents laws r)), r'))
      × Took laws r k r'

  read_flat :
      (fuel asked k : ℕ) (r : Ring B)
      → IsValid laws r
      → r.read_index ≤ r.write_index
      → min asked r.bytes_written ≡ k
      → r.read_index + k ≤ cap laws r
      → Reads (suc fuel) asked k r
  read_flat fuel asked k r v h count inside = (
    taken laws k (r.read_index + k) r,
    read_flat_run laws fuel asked k r v h count inside,
    taken-Took laws r k (r.read_index + k) v (omega arith) inside (inl refl)
        (ground (arith, v.from_read)),
  )

  read_across :
      (fuel asked k m : ℕ) (r : Ring B)
      → IsValid laws r
      → r.write_index < r.read_index
      → min asked r.bytes_written ≡ k
      → r.read_index + m ≡ cap laws r
      → m ≤ k
      → Reads (suc (suc fuel)) asked k r
  read_across fuel asked k m r v h count across le =
      let small = laws.capacity_bound r.self v.self_valid in
      let c = contents laws r in
      let first : Took laws r m (taken laws m 0 r) =
        taken-Took laws r m 0 v (omega arith) (omega arith) (inr (inl (omega arith)))
          (ground (arith, v.from_read)) in
      let second =
        read_flat fuel (k - m) (k - m) (taken laws m 0 r) first.valid (omega arith) (omega arith)
          (omega (arith, v.total)) in
      let whole : m + (k - m) ≡ k = omega arith in
      let sum : add32 m (k - m) ≡ k = omega (arith, v.total) in
      let pieces : take m c ++ take (k - m) (contents laws (taken laws m 0 r)) ≡ take k c =
        ap (λ xs. take m c ++ take (k - m) xs) first.left
        ∙ sym (take-add m (k - m) c)
        ∙ ap (λ n. take n c) whole in
      (
        second.0,
        read_across_run laws (suc fuel) asked k m r v h count across le
            ∙ ap (λ o. and_then o (λ (n, ys). return (add32 m n, take m c ++ ys))) second.1
            ∙ ap₂ (λ n xs. (ok (n, xs), second.0)) sum pieces,
        rw whole at (Took-Took laws r (taken laws m 0 r) second.0 m (k - m) first second.2),
      )

  read_broken :
      (fuel asked k : ℕ) (r : Ring B)
      → IsValid laws r
      → r.write_index < r.read_index
      → min asked r.bytes_written ≡ k
      → Reads (suc (suc fuel)) asked k r
  read_broken fuel asked k r v h count = elim (Bool-cases (ltb (r.read_index + k) (cap laws r))) [
    | inl before ↦ (
      taken laws k (r.read_index + k) r,
      read_before_run laws (suc fuel) asked k r v h count (ltb→lt _ _ before),
      taken-Took laws r k (r.read_index + k) v (omega arith)
          (omega (arith, ltb→lt (r.read_index + k) (cap laws r) before)) (inl refl)
          (ground (arith, v.from_read)),
    )
    | inr across ↦
        read_across fuel asked k (cap laws r - r.read_index) r v h count (omega (arith, v.read_in))
          (omega (arith, ltb→le (r.read_index + k) (cap laws r) across))
  ]

  -- On a valid ring, unless it is full, reading and writing go on at one place, and the bytes asked for go round the
  -- end of the buffer: `read` returns the oldest bytes, as many as it was asked for or as there are. The ring
  -- is valid then and holds the others; of the bytes kept since a mark none has gone.
  pub ring_read_lem :
      (r : Ring B) (asked : ℕ)
      → IsValid laws r
      → let k = min asked (length (contents laws r)) in
        (r.read_index ≡ r.write_index
          → r.bytes_written ≡ cap laws r
          → r.read_index + k ≤ cap laws r)
        → (r' : Ring B) × (read ops asked r ≡ (ok (k, take k (contents laws r)), r'))
          × Took laws r k r'
  unfolding read
  ring_read_lem r asked v readable =
      let k = min asked (length (contents laws r)) in
      let size = length-contents laws r v in
      let count : min asked r.bytes_written ≡ k = omega arith in
      elim (Bool-cases (ltb r.write_index r.read_index)) [
        | inl broken ↦ read_broken 0 asked k r v (ltb→lt _ _ broken) count
        | inr whole ↦
            let order : r.read_index ≤ r.write_index = ltb→le _ _ whole in
            read_flat 1 asked k r v order count (
              fits_in_one (cap laws r) r.read_index r.write_index r.bytes_written k v.positive order
                v.write_in (omega (arith, v.total)) (omega arith) v.from_read readable)
      ]

  -- A full ring that reads and writes at one place other than its beginning refuses every read of more
  -- bytes than lie before its end, and changes nothing.
  pub read_full :
      (r : Ring B) (asked : ℕ)
      → IsValid laws r
      → r.read_index ≡ r.write_index
      → r.bytes_written ≡ cap laws r
      → cap laws r < r.read_index + min asked (cap laws r)
      → (e : Exception) → ops.read r.self r.read_index (min asked (cap laws r)) ≡ throws e
      → read ops asked r ≡ (throws e, r)
  unfolding read read_rounds
  read_full r asked v same full beyond e refused =
      let order : r.write_index ≤ r.read_index = omega arith in
      rw (full, le→ltb r.write_index r.read_index (omega arith), refused) refl
