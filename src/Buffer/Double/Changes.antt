-- ===== src/Buffer/Double/Changes.antt =====
-- A double buffer is a buffer, and tells which ranges have changed.
use open_airbus_cockpit.Prelude.{
  ℕ, ◌+◌, ◌≤◌, ◌≡◌, refl, sym, ap, ap₂, ◌∙◌, inl, inr, arith, List, Bool-cases, false, length, take,
  drop, overwrite, ok,
}
use open_airbus_cockpit.Prelude.Maps.{same_string}
use open_airbus_cockpit.Buffer.Interface.{Buffer, IsBuffer}
use open_airbus_cockpit.Buffer.Shifted.Access.{drop-overwrite}
use open_airbus_cockpit.Buffer.Double.{
  Double, create, current, with_current, on_current, differ, swap, capacity, read, write,
  is_modified, double_ops,
}

current-with_current : {B : Type 0} (b : B) (d : Double B) → current (with_current b d) ≡ b
current-with_current b d = elim (Bool-cases d.current_buffer) [
  | inl e ↦ rw e refl
  | inr e ↦ rw e refl
]

module _ {B : Type 0} {ops : Buffer B} {bytes : B → List ℕ} {Valid : B → Type 0}
    (laws : IsBuffer ops bytes Valid) where
  double_write_within :
      (d : Double B) (src : List ℕ) (offset : ℕ)
      → Valid (current d)
      → offset + length src ≤ capacity ops d
      → (d' : Double B) × (write ops src offset d ≡ (ok tt, d'))
        × (bytes (current d') ≡ overwrite (bytes (current d)) offset src)
        × (capacity ops d' ≡ capacity ops d)
        × Valid (current d')
  unfolding write capacity on_current
  double_write_within d src offset v h =
      let (b, run, image, kept, v') = laws.write_within (current d) src offset v h in
      let same = current-with_current b d in
      (
        with_current b d,
        ap (λ o. (o.0, with_current o.1 d)) run,
        ap bytes same ∙ image,
        ap ops.capacity same ∙ kept,
        rw (sym same) at v',
      )

  pub double_ops-IsBuffer :
      IsBuffer (double_ops ops) (λ d. bytes (current d)) (λ d. Valid (current d))
  unfolding read capacity
  double_ops-IsBuffer = record {
    length-bytes = λ d v. laws.length-bytes (current d) v;
    capacity_bound = λ d v. laws.capacity_bound (current d) v;
    read_within = λ d offset n v h. laws.read_within (current d) offset n v h;
    write_within = double_write_within;
  }

  -- For two valid buffers of one size with the same bytes: after a write of bytes that fit to the current one, and a
  -- swap, the double buffer reads the old bytes of the range, and says that the range is modified just as the
  -- comparison of the bytes written with the old ones does.
  pub is_modified-write :
      (b0 b1 : B) (src : List ℕ) (offset : ℕ)
      → Valid b0
      → Valid b1
      → bytes b0 ≡ bytes b1
      → offset + length src ≤ ops.capacity b0
      → (d : Double B) × (write ops src offset (create b0 b1) ≡ (ok tt, d))
        × (read ops (swap d) offset (length src) ≡ ok (take (length src) (drop offset (bytes b0))))
        × (is_modified ops (length src) offset (swap d)
            ≡ ok (differ src (take (length src) (drop offset (bytes b0)))))
  unfolding create write on_current swap read is_modified
  is_modified-write b0 b1 src offset v0 v1 same h =
      let n = length src in
      let sizes = ap length same in
      let s0 = laws.length-bytes b0 v0 in
      let s1 = laws.length-bytes b1 v1 in
      let (b', run, image, kept, v') = laws.write_within b0 src offset v0 h in
      let got0 = laws.read_within b' offset n v' (omega arith) in
      let got1 = laws.read_within b1 offset n v1 (omega arith) in
      let new : take n (drop offset (bytes b')) ≡ src =
        ap (λ bs. take n (drop offset bs)) image
        ∙ drop-overwrite (bytes b0) offset src (omega arith) in
      let old = ap (λ bs. ok (take n (drop offset bs))) (sym same) in
      (
        record { backed_buffer_0 = b'; backed_buffer_1 = b1; current_buffer = false },
        rw run refl,
        got1 ∙ old,
        rw (got0, got1) (ap₂ (λ xs bs. ok (differ xs (take n (drop offset bs)))) new (sym same)),
      )
