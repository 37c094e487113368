-- ===== src/Buffer/Shifted/Access.antt =====
-- Where the accesses of a shifted buffer go.
use open_airbus_cockpit.Prelude.{
  ℕ, ◌+◌, ◌≤◌, ◌<◌, ◌≡◌, refl, ap, ◌∙◌, arith, List, ◌++◌, lt→ltb, le→ltb, length, take, drop,
  overwrite, ok, throws, take-append, drop-append, length-take,
}
use open_airbus_cockpit.Prelude.Words.{u32_mod, add32, sub32}
use open_airbus_cockpit.Exception.{index_out_of_bounds}
use open_airbus_cockpit.Buffer.Interface.{Buffer, IsBuffer}
use open_airbus_cockpit.Buffer.Shifted.{
  Shifted, shift, check_bounds, create, read, write, on_backed,
}

-- What has been written is read back.
pub drop-overwrite :
    (xs : List ℕ) (i : ℕ) (ys : List ℕ)
    → i ≤ length xs
    → take (length ys) (drop i (overwrite xs i ys)) ≡ ys
drop-overwrite xs i ys h =
    ap (take (length ys))
      (drop-append i (take i xs) (ys ++ drop (i + length ys) xs) (omega (arith, length-take i xs)))
    ∙ take-append (length ys) ys (drop (i + length ys) xs) refl

module _ {B : Type 0} {ops : Buffer B} {bytes : B → List ℕ} {Valid : B → Type 0}
    (laws : IsBuffer ops bytes Valid) where
  in_bounds :
      (s : Shifted B) (i n : ℕ)
      → s.backed_capacity < u32_mod
      → i + n ≤ s.backed_capacity
      → s.offset_shift + i < u32_mod
      → check_bounds (s.offset_shift + i) n s ≡ ok tt
  unfolding check_bounds
  in_bounds s i n small inside narrow =
      let at : sub32 (s.offset_shift + i) s.offset_shift ≡ i = omega arith in
      let sum : add32 i n ≡ i + n = omega arith in
      rw
        (
          le→ltb (s.offset_shift + i) s.offset_shift (omega arith),
          at,
          sum,
          le→ltb s.backed_capacity (i + n) inside,
        )
        refl

  -- On a shifted buffer over a valid one, bytes that fit are written to the backed buffer at the offset less the shift,
  -- and a read at the same offset returns them.
  pub shifted_write_read :
      (b : B) (offset_shift i : ℕ) (src : List ℕ)
      → Valid b
      → i + length src ≤ ops.capacity b
      → offset_shift + i < u32_mod
      → let s = create ops b offset_shift in
        (b' : B) × (write ops src (offset_shift + i) s ≡ (ok tt, record s { backed_buffer = b' }))
        × (bytes b' ≡ overwrite (bytes b) i src)
        × (read ops (offset_shift + i) (length src) (record s { backed_buffer = b' }) ≡ ok src)
  unfolding create write read on_backed shift
  shifted_write_read b offset_shift i src v inside narrow =
      let s = create ops b offset_shift in
      let small = laws.capacity_bound b v in
      let at : sub32 (offset_shift + i) offset_shift ≡ i = omega arith in
      let (b', run, image, same, v') = laws.write_within b src i v inside in
      let s' : Shifted B = record s { backed_buffer = b' } in
      let got = laws.read_within b' i (length src) v' (omega arith) in
      (
        b',
        rw (in_bounds s i (length src) small inside narrow, at, run) refl,
        image,
        rw (in_bounds s' i (length src) small inside narrow, at, got)
            (ap ok (
              ap (λ bs. take (length src) (drop i bs)) image
              ∙ drop-overwrite (bytes b) i src (omega (arith, laws.length-bytes b v)))),
      )

  -- An access below the shift throws, whatever its length, and changes nothing.
  pub shifted_refuses :
      (s : Shifted B) (offset : ℕ) (src : List ℕ)
      → offset < s.offset_shift
      → let e = index_out_of_bounds (add32 offset (length src)) 0 (sub32 s.backed_capacity 1) in
        (read ops offset (length src) s ≡ throws e) × (write ops src offset s ≡ (throws e, s))
  unfolding read write check_bounds
  shifted_refuses s offset src below =
      (rw (lt→ltb offset s.offset_shift below) refl, rw (lt→ltb offset s.offset_shift below) refl)
