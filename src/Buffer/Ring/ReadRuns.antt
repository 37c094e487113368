-- ===== src/Buffer/Ring/ReadRuns.antt =====
-- One call of `read` of the ring stream buffer: in one piece, before the end of a broken ring, or up to its end and on.
use open_airbus_cockpit.Prelude.{
  ℕ, suc, ◌+◌, ◌-◌, ◌≤◌, ◌<◌, min, ◌≡◌, sym, ap, ap₂, ◌∙◌, arith, List, ◌++◌, le→ltb, lt→ltb, take,
  drop, take-take, ok, and_then, return,
}
use open_airbus_cockpit.Prelude.Words.{add32, sub32}
use open_airbus_cockpit.Buffer.Interface.{Buffer, IsBuffer}
use open_airbus_cockpit.Buffer.Ring.Window.{window_flat}
use open_airbus_cockpit.Buffer.Ring.Laws.{cap, IsValid, contents, taken, take_off_lem}
use open_airbus_cockpit.Buffer.Ring.{Ring, take_off, read_to, read_rounds}

module _ {B : Type 0} {ops : Buffer B} {bytes : B → List ℕ} {Valid : B → Type 0}
    (laws : IsBuffer ops bytes Valid) where
  -- The bytes in one piece at the front.
  take-contents :
      (r : Ring B) (k : ℕ)
      → IsValid laws r
      → k ≤ r.bytes_written
      → r.read_index + k ≤ cap laws r
      → take k (drop r.read_index (bytes r.self)) ≡ take k (contents laws r)
  unfolding contents
  take-contents r k v h inside =
      let size = laws.length-bytes r.self v.self_valid in
      sym (
        take-take k r.bytes_written (drop r.read_index (bytes r.self ++ bytes r.self)) h
        ∙ window_flat (bytes r.self) r.read_index k (omega arith))

  -- The call that needs no other: the bytes asked for lie in one piece, and the ring is not broken.
  pub read_flat_run :
      (fuel asked k : ℕ) (r : Ring B)
      → IsValid laws r
      → r.read_index ≤ r.write_index
      → min asked r.bytes_written ≡ k
      → r.read_index + k ≤ cap laws r
      → read_rounds ops (suc fuel) asked r
        ≡ (ok (k, take k (contents laws r)), taken laws k (r.read_index + k) r)
  unfolding read_rounds
  read_flat_run fuel asked k r v h count inside =
      let small = laws.capacity_bound r.self v.self_valid in
      let got = laws.read_within r.self r.read_index k v.self_valid inside in
      let moved : add32 r.read_index k ≡ r.read_index + k = omega arith in
      let off = (take_off_lem laws r k (r.read_index + k) v (omega arith)).1 in
      rw (count, le→ltb r.write_index r.read_index h, got, take-contents r k v (omega arith) inside)
        (ap (λ s. (ok (k, take k (contents laws r)), s))
          (ap (λ e. take_off ops k (read_to ops e r)) moved ∙ off))

  -- The call that stays before the end of a broken ring.
  pub read_before_run :
      (fuel asked k : ℕ) (r : Ring B)
      → IsValid laws r
      → r.write_index < r.read_index
      → min asked r.bytes_written ≡ k
      → r.read_index + k < cap laws r
      → read_rounds ops (suc fuel) asked r
        ≡ (ok (k, take k (contents laws r)), taken laws k (r.read_index + k) r)
  unfolding read_rounds
  read_before_run fuel asked k r v h count inside =
      let small = laws.capacity_bound r.self v.self_valid in
      let got = laws.read_within r.self r.read_index k v.self_valid (omega arith) in
      let moved : add32 r.read_index k ≡ r.read_index + k = omega arith in
      let rem : sub32 (cap laws r) r.read_index ≡ cap laws r - r.read_index = omega arith in
      let final : min k (sub32 (cap laws r) r.read_index) ≡ k = omega arith in
      let off = (take_off_lem laws r k (r.read_index + k) v (omega arith)).0 in
      rw
        (
          count,
          lt→ltb r.write_index r.read_index h,
          final,
          got,
          lt→ltb k (sub32 (cap laws r) r.read_index) (omega arith),
          take-contents r k v (omega arith) (omega arith),
        )
        (ap (λ s. (ok (k, take k (contents laws r)), s))
          (ap (λ e. read_to ops e (take_off ops k r)) moved ∙ off))

  -- The call that reaches the end of a broken ring goes on at its beginning.
  pub read_across_run :
      (fuel asked k m : ℕ) (r : Ring B)
      → IsValid laws r
      → r.write_index < r.read_index
      → min asked r.bytes_written ≡ k
      → r.read_index + m ≡ cap laws r
      → m ≤ k
      → read_rounds ops (suc fuel) asked r
        ≡ and_then
            (read_rounds ops fuel (k - m) (taken laws m 0 r))
            (λ (n, ys). return (add32 m n, take m (contents laws r) ++ ys))
  unfolding read_rounds
  read_across_run fuel asked k m r v h count across le =
      let small = laws.capacity_bound r.self v.self_valid in
      let got = laws.read_within r.self r.read_index m v.self_valid (omega arith) in
      let rem : sub32 (cap laws r) r.read_index ≡ m = omega arith in
      let final : min k m ≡ m = omega arith in
      let rest : sub32 k m ≡ k - m = omega arith in
      let off = (take_off_lem laws r m 0 v (omega arith)).0 in
      rw
        (
          count,
          lt→ltb r.write_index r.read_index h,
          rem,
          final,
          got,
          le→ltb k m le,
          take-contents r m v (omega arith) (omega arith),
        )
        (ap₂
          (λ c s.
            and_then (read_rounds ops fuel c s)
              (λ (n, ys). return (add32 m n, take m (contents laws r) ++ ys)))
          rest off)
