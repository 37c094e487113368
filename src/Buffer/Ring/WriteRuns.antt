-- ===== src/Buffer/Ring/WriteRuns.antt =====
-- One call of `write` of the ring stream buffer: into the gap of a broken ring, before the end of the buffer, or up to
-- its end and on.
use open_airbus_cockpit.Prelude.{
  ℕ, suc, ◌+◌, ◌-◌, ◌≤◌, ◌<◌, min, ◌≡◌, refl, ap, arith, List, le→ltb, lt→ltb, length, take, drop,
  length-take, ok, and_then, return,
}
use open_airbus_cockpit.Prelude.Words.{add32, sub32}
use open_airbus_cockpit.Buffer.Interface.{Buffer, IsBuffer}
use open_airbus_cockpit.Buffer.Ring.Laws.{cap, IsValid}
use open_airbus_cockpit.Buffer.Ring.Additions.{stored}
use open_airbus_cockpit.Buffer.Ring.{
  Ring, put_on, write_to, available_for_write, on_self, write_rounds,
}

module _ {B : Type 0} {ops : Buffer B} {bytes : B → List ℕ} {Valid : B → Type 0}
    (laws : IsBuffer ops bytes Valid) where
  -- How much more the ring takes.
  abbrev pub free : Ring B → ℕ
  free r = cap laws r - r.bytes_written - r.dist_from_mark

  pub free_lem : (r : Ring B) → IsValid laws r → available_for_write ops r ≡ free r
  unfolding available_for_write
  free_lem r v =
      let small = laws.capacity_bound r.self v.self_valid in let within = v.total in omega arith

  -- What one store comes to.
  pub put_on_lem :
      (r : Ring B) (b : B) (xs : List ℕ) (n e e' : ℕ)
      → IsValid laws r
      → length xs ≡ n
      → r.bytes_written + n ≤ cap laws r
      → e' ≡ e
      → let r' = record r { self = b } in
        (put_on ops n (write_to ops e' r') ≡ stored laws b xs e r)
        × (write_to ops e' (put_on ops n r') ≡ stored laws b xs e r)
  unfolding put_on
  put_on_lem r b xs n e e' v size fits same =
      let small = laws.capacity_bound r.self v.self_valid in
      let sum : add32 r.bytes_written n ≡ r.bytes_written + length xs = omega arith in
      (rw (sum, same) refl, rw (sum, same) refl)

  -- The call on a broken ring: the bytes go into the gap.
  pub write_broken_run :
      (fuel k : ℕ) (src : List ℕ) (r : Ring B) (b : B)
      → IsValid laws r
      → r.write_index < r.read_index
      → min (length src) (free r) ≡ k
      → r.write_index + k ≤ cap laws r
      → ops.write (take k src) r.write_index r.self ≡ (ok tt, b)
      → write_rounds ops (suc fuel) src r ≡ (ok k, stored laws b (take k src) (r.write_index + k) r)
  unfolding write_rounds on_self
  write_broken_run fuel k src r b v h count inside stored_b =
      let small = laws.capacity_bound r.self v.self_valid in
      let size : length (take k src) ≡ k = omega (arith, length-take k src) in
      let moved : add32 r.write_index k ≡ r.write_index + k = omega arith in
      let on =
        put_on_lem r b (take k src) k (r.write_index + k) (add32 r.write_index k) v size
          (omega (arith, v.total)) moved in
      rw (free_lem r v, count, lt→ltb r.write_index r.read_index h, stored_b)
        (ap (λ s. (ok k, s)) on.0)

  -- The call that stays before the end of the buffer.
  pub write_before_run :
      (fuel k : ℕ) (src : List ℕ) (r : Ring B) (b : B)
      → IsValid laws r
      → r.read_index ≤ r.write_index
      → min (length src) (free r) ≡ k
      → r.write_index + k < cap laws r
      → ops.write (take k src) r.write_index r.self ≡ (ok tt, b)
      → write_rounds ops (suc fuel) src r ≡ (ok k, stored laws b (take k src) (r.write_index + k) r)
  unfolding write_rounds on_self
  write_before_run fuel k src r b v h count inside stored_b =
      let small = laws.capacity_bound r.self v.self_valid in
      let size : length (take k src) ≡ k = omega (arith, length-take k src) in
      let moved : add32 r.write_index k ≡ r.write_index + k = omega arith in
      let final : min k (sub32 (cap laws r) r.write_index) ≡ k = omega arith in
      let on =
        put_on_lem r b (take k src) k (r.write_index + k) (add32 r.write_index k) v size
          (omega (arith, v.total)) moved in
      rw
        (
          free_lem r v,
          count,
          le→ltb r.write_index r.read_index h,
          final,
          stored_b,
          lt→ltb k (sub32 (cap laws r) r.write_index) (omega arith),
        )
        (ap (λ s. (ok k, s)) on.1)

  -- The call that fills the buffer up to its end goes on at its beginning.
  pub write_across_run :
      (fuel k m : ℕ) (src : List ℕ) (r : Ring B) (b : B)
      → IsValid laws r
      → r.read_index ≤ r.write_index
      → min (length src) (free r) ≡ k
      → r.write_index + m ≡ cap laws r
      → m ≤ k
      → ops.write (take m src) r.write_index r.self ≡ (ok tt, b)
      → write_rounds ops (suc fuel) src r
        ≡ and_then
            (write_rounds ops fuel (drop m (take k src)) (stored laws b (take m src) 0 r))
            (λ n. return (add32 m n))
  unfolding write_rounds on_self
  write_across_run fuel k m src r b v h count across le stored_b =
      let small = laws.capacity_bound r.self v.self_valid in
      let size : length (take m src) ≡ m = omega (arith, length-take m src) in
      let rem : sub32 (cap laws r) r.write_index ≡ m = omega arith in
      let final : min k m ≡ m = omega arith in
      let on = put_on_lem r b (take m src) m 0 0 v size (omega (arith, v.total)) refl in
      rw
        (
          free_lem r v,
          count,
          le→ltb r.write_index r.read_index h,
          rem,
          final,
          stored_b,
          le→ltb k m le,
        )
        (ap
          (λ s. and_then (write_rounds ops fuel (drop m (take k src)) s) (λ n. return (add32 m n)))
          on.1)
