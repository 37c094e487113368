-- ===== src/Buffer/Fixed/Copies.antt =====
-- Copying into a fixed buffer, copy construction, and `fill` on any buffer.
use open_airbus_cockpit.Prelude.{
  ℕ, zero, suc, ◌+◌, ◌-◌, ◌≤◌, ◌≡◌, refl, sym, ap, ◌∙◌, arith, List, [], ◌∷◌, ◌++◌, length, take,
  drop, overwrite, replicate, length-append, length-take, length-drop, length-replicate,
  take-append, drop-append_ge, take_all, drop_all, append-nil, ok,
}
use open_airbus_cockpit.Buffer.Interface.{Buffer, IsBuffer}
use open_airbus_cockpit.Buffer.Fixed.{Fixed, copy, copy_of, fill_from, fill}
use open_airbus_cockpit.Buffer.Fixed.Access.{IsValid, fixed_ops-IsBuffer}

module _ {B : Type 0} {ops : Buffer B} {bytes : B → List ℕ} {Valid : B → Type 0}
    (laws : IsBuffer ops bytes Valid) where
  -- A copy between two ranges that lie within their buffers overwrites the target range with the
  -- bytes of the source range, and nothing else.
  pub copy_lem :
      (src : B) (b : Fixed) (src_offset dst_offset n : ℕ)
      → Valid src
      → IsValid b
      → src_offset + n ≤ ops.capacity src
      → dst_offset + n ≤ b.capacity
      → copy ops src src_offset dst_offset n b ≡ (
        ok tt,
        record b { bytes = overwrite b.bytes dst_offset (take n (drop src_offset (bytes src))) },
      )
  unfolding copy
  copy_lem src b src_offset dst_offset n vs v hs hd =
      let source = laws.read_within src src_offset n vs hs in
      let taken = length-take n (drop src_offset (bytes src)) in
      let dropped = length-drop src_offset (bytes src) in
      let whole = laws.length-bytes src vs in ground (arith, source, taken, dropped, whole)

  replicate-suc :
      (i v : ℕ) (rest : List ℕ) → replicate i v ++ (v ∷ rest) ≡ replicate (suc i) v ++ rest
  replicate-suc zero v rest = refl
  replicate-suc (suc i) v rest = ap (◌∷◌ v) (replicate-suc i v rest)

  step :
      (i value x : ℕ) (rest : List ℕ)
      → overwrite (replicate i value ++ (x ∷ rest)) i (value ∷ []) ≡ replicate (suc i) value ++ rest
  step i value x rest =
      let n = length-replicate i value in
      let one : i + 1 - length (replicate i value) ≡ 1 = omega arith in
      rw
        (
          take-append i (replicate i value) (x ∷ rest) n,
          drop-append_ge (i + 1) (replicate i value) (x ∷ rest) (omega arith),
          one,
        )
        (replicate-suc i value rest)

  fill_from_lem :
      (k i value : ℕ) (b : B) (rest : List ℕ)
      → Valid b
      → bytes b ≡ replicate i value ++ rest
      → length rest ≡ k
      → (b' : B) × (fill_from ops k i value b ≡ (ok tt, b'))
        × (bytes b' ≡ replicate (i + k) value)
        × (ops.capacity b' ≡ ops.capacity b)
        × Valid b'
  unfolding fill_from
  fill_from_lem zero i value b [] v e h =
      let count : i + 0 ≡ i = omega arith in
      (b, refl, rw count (e ∙ append-nil (replicate i value)), refl, v)
  fill_from_lem zero i value b (x ∷ rest) v e h = absurd (omega arith)
  fill_from_lem (suc k) i value b [] v e h = absurd (omega arith)
  fill_from_lem (suc k) i value b (x ∷ rest) v e h =
      let whole = length-append (replicate i value) (x ∷ rest) in
      let filled = length-replicate i value in
      let total : length (bytes b) ≡ i + length (x ∷ rest) = rw e (omega arith) in
      let written = laws.write_within b (value ∷ []) i v (omega (arith, laws.length-bytes b v)) in
      let count : i + 1 ≡ suc i = omega arith in
      let after : bytes written.0 ≡ replicate (i + 1) value ++ rest =
        written.2
        ∙ (rw e (step i value x rest))
        ∙ ap (λ n. replicate n value ++ rest) (sym count) in
      let later = fill_from_lem k (i + 1) value written.0 rest written.4 after (omega arith) in
      let sum : i + 1 + k ≡ i + suc k = omega arith in
      (later.0, rw (written.1, later.1) refl, rw (← sum) later.2, later.3 ∙ written.3, later.4)

  -- `fill` leaves the value in every byte, whatever the buffer held.
  pub fill_lem :
      (value : ℕ) (b : B)
      → Valid b
      → (b' : B) × (fill ops value b ≡ (ok tt, b'))
        × (bytes b' ≡ replicate (ops.capacity b) value)
        × (ops.capacity b' ≡ ops.capacity b)
        × Valid b'
  unfolding fill
  fill_lem value b v =
      let r = fill_from_lem (ops.capacity b) 0 value b (bytes b) v refl (laws.length-bytes b v) in
      let count : 0 + ops.capacity b ≡ ops.capacity b = omega arith in
      (r.0, r.1, r.2 ∙ ap (λ n. replicate n value) count, r.3, r.4)

-- The copy constructor gives a buffer with the same bytes, whatever the new memory held before.
pub copy_of_lem :
    {b : Fixed} (junk : List ℕ) → IsValid b → length junk ≡ b.capacity → copy_of junk b ≡ (ok tt, b)
unfolding copy_of
copy_of_lem {b} junk v h =
    let target : Fixed = record { bytes = junk; capacity = b.capacity } in
    let valid : IsValid target = record { sized = h; small = v.small } in
    let copied =
      copy_lem fixed_ops-IsBuffer b target 0 0 b.capacity v valid (omega arith) (omega arith) in
    let all : take b.capacity b.bytes ≡ b.bytes = take_all b.capacity b.bytes (omega arith) in
    let none_left : drop (0 + length b.bytes) junk ≡ [] = drop_all _ junk (omega arith) in
    rw (take_all b.capacity junk (omega arith)) (
      copied
      ∙ ap (λ bs. (ok tt, record b { bytes = bs }))
          ((rw (all, none_left) refl) ∙ append-nil b.bytes))
