-- ===== src/Buffer/Ring/Writing.antt =====
-- `write` of the ring stream buffer adds bytes behind the newest ones.
use open_airbus_cockpit.Prelude.{
  ℕ, suc, ◌+◌, ◌-◌, ◌≤◌, ◌<◌, min, ◌≡◌, refl, sym, ap, ◌∙◌, inl, inr, arith, List, ◌++◌, ltb,
  ltb→lt, ltb→le, Bool-cases, length, take, drop, length-take, length-drop, take-take, ok, and_then,
  return,
}
use open_airbus_cockpit.Prelude.Words.{add32}
use open_airbus_cockpit.Buffer.Interface.{Buffer, IsBuffer}
use open_airbus_cockpit.Buffer.Ring.Window.{Ends, take-add}
use open_airbus_cockpit.Buffer.Ring.Laws.{cap, IsValid}
use open_airbus_cockpit.Buffer.Ring.Additions.{stored, Put, stored-Put, Put-Put}
use open_airbus_cockpit.Buffer.Ring.{Ring, write_rounds, write}
use open_airbus_cockpit.Buffer.Ring.WriteRuns.{
  free, write_broken_run, write_before_run, write_across_run,
}

-- What is left to write at the beginning of a ring that reads from there.
restart_short :
    (c r w n k m : ℕ) → 0 < c → r ≤ w → w + m ≡ c → k + n ≤ c → Ends c r n w → r ≡ 0 → k - m < c
restart_short c r w n k m hc order rem hk (inl p) at_zero = omega arith
restart_short c r w n k m hc order rem hk (inr (inl p)) at_zero = omega arith
restart_short c r w n k m hc order rem hk (inr (inr p)) at_zero = omega arith

-- The two pieces of what is written.
two_pieces :
    (k m : ℕ) (src : List ℕ) → m ≤ k → take m src ++ take (k - m) (drop m (take k src)) ≡ take k src
two_pieces k m src h =
    let whole : m + (k - m) ≡ k = omega arith in
    ap (λ xs. xs ++ take (k - m) (drop m (take k src))) (sym (take-take m k src h))
    ∙ sym (take-add m (k - m) (take k src))
    ∙ ap (λ n. take n (take k src)) whole
    ∙ take-take k k src (omega arith)

module _ {B : Type 0} {ops : Buffer B} {bytes : B → List ℕ} {Valid : B → Type 0}
    (laws : IsBuffer ops bytes Valid) where
  -- A store within the buffer and within what is free.
  store_step :
      (r : Ring B) (xs : List ℕ) (e : ℕ)
      → IsValid laws r
      → r.write_index + length xs ≤ cap laws r
      → length xs ≤ free laws r
      → e ≤ cap laws r
      → Ends (cap laws r) r.read_index (r.bytes_written + length xs) e
      → (b : B) × (ops.write xs r.write_index r.self ≡ (ok tt, b))
        × Put laws r xs (stored laws b xs e r)
  store_step r xs e v inside fits he ends =
      let (b, run, image, same, vb) =
        laws.write_within r.self xs r.write_index v.self_valid inside in
      (b, run, stored-Put laws r b xs e v vb image same inside (omega (arith, v.total)) he ends)

  -- What a write comes to.
  abbrev pub Writes : ℕ → List ℕ → ℕ → Ring B → Type 0
  Writes fuel src k r =
      (r' : Ring B) × (write_rounds ops fuel src r ≡ (ok k, r')) × Put laws r (take k src) r'

  write_broken :
      (fuel k : ℕ) (src : List ℕ) (r : Ring B)
      → IsValid laws r
      → r.write_index < r.read_index
      → min (length src) (free laws r) ≡ k
      → Writes (suc fuel) src k r
  write_broken fuel k src r v h count =
      let size : length (take k src) ≡ k = omega (arith, length-take k src) in
      let gap : r.write_index + k ≤ cap laws r = ground (arith, v.from_read, v.read_in, v.total) in
      let ends : Ends (cap laws r) r.read_index (r.bytes_written + length (take k src))
          (r.write_index + k) =
        ground (arith, v.from_read) in
      let (b, run, put) =
        store_step r (take k src) (r.write_index + k) v (omega arith) (omega arith) gap ends in
      (
        stored laws b (take k src) (r.write_index + k) r,
        write_broken_run laws fuel k src r b v h count gap run,
        put,
      )

  write_before :
      (fuel k : ℕ) (src : List ℕ) (r : Ring B)
      → IsValid laws r
      → r.read_index ≤ r.write_index
      → min (length src) (free laws r) ≡ k
      → r.write_index + k < cap laws r
      → Writes (suc fuel) src k r
  write_before fuel k src r v h count inside =
      let size : length (take k src) ≡ k = omega (arith, length-take k src) in
      let ends : Ends (cap laws r) r.read_index (r.bytes_written + length (take k src))
          (r.write_index + k) =
        ground (arith, v.from_read) in
      let (b, run, put) =
        store_step r (take k src) (r.write_index + k) v (omega arith) (omega arith) (omega arith)
          ends in
      (
        stored laws b (take k src) (r.write_index + k) r,
        write_before_run laws fuel k src r b v h count inside run,
        put,
      )

  -- One more call, from the beginning of the buffer.
  write_again :
      (fuel k : ℕ) (src : List ℕ) (r : Ring B)
      → IsValid laws r
      → r.write_index ≡ 0
      → min (length src) (free laws r) ≡ k
      → (r.read_index ≡ 0 → k < cap laws r)
      → Writes (suc fuel) src k r
  write_again fuel k src r v zero_w count short = elim (Bool-cases (ltb 0 r.read_index)) [
    | inl broken ↦ write_broken fuel k src r v (omega (arith, ltb→lt 0 r.read_index broken)) count
    | inr whole ↦
        let at_zero : r.read_index ≡ 0 = omega (arith, ltb→le 0 r.read_index whole) in
        write_before fuel k src r v (omega arith) count (omega (arith, short at_zero))
  ]

  -- Two stores that are one write.
  write_join :
      (k m : ℕ) (src : List ℕ) (r mid : Ring B)
      → m ≤ k
      → add32 m (k - m) ≡ k
      → Put laws r (take m src) mid
      → Writes 1 (drop m (take k src)) (k - m) mid
      → write_rounds ops 2 src r
        ≡ and_then (write_rounds ops 1 (drop m (take k src)) mid) (λ n. return (add32 m n))
      → Writes 2 src k r
  write_join k m src r mid le sum first (end, second, put) run = (
    end,
    run ∙ ap (λ o. and_then o (λ n. return (add32 m n))) second ∙ ap (λ n. (ok n, end)) sum,
    rw (two_pieces k m src le) at
        (Put-Put laws r mid end (take m src) (take (k - m) (drop m (take k src))) first put),
  )

  write_across :
      (k m : ℕ) (src : List ℕ) (r : Ring B)
      → IsValid laws r
      → r.read_index ≤ r.write_index
      → min (length src) (free laws r) ≡ k
      → r.write_index + m ≡ cap laws r
      → m ≤ k
      → Writes 2 src k r
  write_across k m src r v h count across le =
      let small = laws.capacity_bound r.self v.self_valid in
      let sum : add32 m (k - m) ≡ k = omega arith in
      let size : length (take m src) ≡ m = omega (arith, length-take m src) in
      let ends : Ends (cap laws r) r.read_index (r.bytes_written + length (take m src)) 0 =
        ground (arith, v.from_read) in
      let step = store_step r (take m src) 0 v (omega arith) (omega arith) (omega arith) ends in
      let mid = stored laws step.0 (take m src) 0 r in
      let rest = drop m (take k src) in
      let left : length rest ≡ k - m =
        omega (arith, length-drop m (take k src), length-take k src) in
      let freed : min (length rest) (free laws mid) ≡ k - m = omega (arith, step.2.same_cap) in
      let short : r.read_index ≡ 0 → k - m < cap laws mid = λ at_zero. rw step.2.same_cap (
        restart_short (cap laws r) r.read_index r.write_index r.bytes_written k m v.positive h
          across (omega (arith, v.total)) v.from_read at_zero) in
      write_join k m src r mid le sum step.2
        (write_again 0 (k - m) rest mid step.2.valid refl freed short)
        (write_across_run laws 1 k m src r step.0 v h count across le step.1)

  write_whole :
      (k : ℕ) (src : List ℕ) (r : Ring B)
      → IsValid laws r
      → r.read_index ≤ r.write_index
      → min (length src) (free laws r) ≡ k
      → Writes 2 src k r
  write_whole k src r v h count = elim (Bool-cases (ltb (r.write_index + k) (cap laws r))) [
    | inl before ↦ write_before 1 k src r v h count (ltb→lt (r.write_index + k) (cap laws r) before)
    | inr across ↦
        write_across k (cap laws r - r.write_index) src r v h count (omega (arith, v.write_in))
          (omega (arith, ltb→le (r.write_index + k) (cap laws r) across))
  ]

  -- `write` on a valid ring stores the first bytes of the source behind those the ring holds, as many as are free
  -- besides the bytes to be read and those kept since a mark, and returns their number. The ring is valid then, and the
  -- bytes that it held or kept are still there.
  pub ring_write_lem :
      (r : Ring B) (src : List ℕ)
      → IsValid laws r
      → let k = min (length src) (cap laws r - r.bytes_written - r.dist_from_mark) in
        (r' : Ring B) × (write ops src r ≡ (ok k, r')) × Put laws r (take k src) r'
  unfolding write
  ring_write_lem r src v = elim (Bool-cases (ltb r.write_index r.read_index)) [
    | inl broken ↦
        write_broken 1 (min (length src) (free laws r)) src r v
          (ltb→lt r.write_index r.read_index broken) refl
    | inr whole ↦
        write_whole (min (length src) (free laws r)) src r v
          (ltb→le r.write_index r.read_index whole) refl
  ]
