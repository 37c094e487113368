-- ===== src/Buffer/Linear/Laws.antt =====
-- The invariant of the linear stream buffer, and what its operations do to the bytes that it holds.
use open_airbus_cockpit.Prelude.{
  ℕ, ◌+◌, ◌-◌, ◌≤◌, ◌<◌, min, ◌≡◌, refl, sym, ap, ◌∙◌, arith, List, ◌++◌, Option, none, some, ltb,
  if◌then◌else◌, length, take, drop, overwrite, length-take, length-drop, drop-take, take-take,
  take-append, length-append, append_assoc, append_assoc, ok,
}
use open_airbus_cockpit.Prelude.Words.{u32_mod, add32, sub32}
use open_airbus_cockpit.Buffer.Interface.{Buffer, IsBuffer}
use open_airbus_cockpit.Buffer.Linear.{Linear, read, write, on_self}

-- What a mark may be.
abbrev pub Marks : Option ℕ → ℕ → Type 0
Marks none w = Unit {0}
Marks (some m) w = m ≤ w

Marks-mono : (m : Option ℕ) (w w' : ℕ) → w ≤ w' → Marks m w → Marks m w'
Marks-mono none w w' h k = tt
Marks-mono (some m) w w' h k = omega arith

-- The number of bytes that a call takes of the `c` that it is asked for, between the indices.
pick :
    (c w r n : ℕ)
    → r ≤ w
    → w < u32_mod
    → n ≡ min c (w - r)
    → (if ltb c (sub32 w r) then c else sub32 w r) ≡ n
pick c w r n h k e = ground arith

-- A list overwritten at `w` begins with what stood before `w` and what was written.
take-overwrite :
    {A : Type 0} (xs : List A) (w n : ℕ) (ys : List A)
    → w ≤ length xs
    → length ys ≡ n
    → take (w + n) (overwrite xs w ys) ≡ take w xs ++ ys
take-overwrite xs w n ys h e =
    ap (take (w + n)) (sym (append_assoc (take w xs) ys (drop (w + length ys) xs)))
    ∙ take-append (w + n) (take w xs ++ ys) (drop (w + length ys) xs)
        (omega (arith, length-append (take w xs) ys, length-take w xs))

module _ {B : Type 0} {ops : Buffer B} {bytes : B → List ℕ} {Valid : B → Type 0}
    (laws : IsBuffer ops bytes Valid) where
  pub record IsValid (l : Linear B) : Type 0 where
    pub self_valid : Valid l.self
    pub read_in : l.read_index ≤ l.write_index
    pub write_in : l.write_index ≤ ops.capacity l.self
    pub mark_in : Marks l.mark l.write_index

  -- The bytes written so far, and those of them still to be read.
  unfoldable pub written : Linear B → List ℕ
  written l = take l.write_index (bytes l.self)

  unfoldable pub pending : Linear B → List ℕ
  unfolding written
  pending l = drop l.read_index (written l)

  pub length-written : (l : Linear B) → IsValid l → length (written l) ≡ l.write_index
  unfolding written
  length-written l v = omega (
    arith,
    length-take l.write_index (bytes l.self),
    laws.length-bytes l.self v.self_valid,
    v.write_in,
  )

  pub length-pending :
      (l : Linear B) → IsValid l → length (pending l) ≡ l.write_index - l.read_index
  unfolding pending
  length-pending l v = omega (arith, length-drop l.read_index (written l), length-written l v)

  -- A piece of what is pending is a piece of the memory.
  take-pending :
      (l : Linear B) (n : ℕ)
      → n ≤ l.write_index - l.read_index
      → take n (drop l.read_index (bytes l.self)) ≡ take n (pending l)
  unfolding pending written
  take-pending l n h = sym (
      ap (take n) (drop-take l.read_index l.write_index (bytes l.self))
      ∙ take-take n (l.write_index - l.read_index) (drop l.read_index (bytes l.self)) h)

  -- `read` returns as many bytes as it was asked for or as are pending, whichever are fewer, from the
  -- front of those pending, and moves the read index past them.
  pub linear_read_lem :
      (l : Linear B) (count : ℕ)
      → IsValid l
      → let n = min count (length (pending l)) in
        (read ops count l
          ≡ (ok (n, take n (pending l)), record l { read_index = l.read_index + n }))
        × IsValid (record l { read_index = l.read_index + n })
  unfolding read
  linear_read_lem l count v =
      let r = l.read_index in
      let w = l.write_index in
      let n = min count (length (pending l)) in
      let size = length-pending l v in
      let small = laws.capacity_bound l.self v.self_valid in
      let inside = v.write_in in
      let before = v.read_in in
      let chosen : (if ltb count (sub32 w r) then count else sub32 w r) ≡ n =
        pick count w r n (omega arith) (omega arith) (omega arith) in
      let got = laws.read_within l.self r n v.self_valid (omega arith) in
      let moved : add32 r n ≡ r + n = omega arith in
      let piece = take-pending l n (omega arith) in
      (
        rw (chosen, got, moved, piece) refl,
        record {
          self_valid = v.self_valid;
          read_in = omega arith;
          write_in = v.write_in;
          mark_in = v.mark_in;
        },
      )

  write_run :
      (l : Linear B) (src : List ℕ) (n : ℕ) (b : B)
      → (if ltb (length src) (sub32 (ops.capacity l.self) l.write_index)
          then length src
          else sub32 (ops.capacity l.self) l.write_index)
        ≡ n
      → ops.write (take n src) l.write_index l.self ≡ (ok tt, b)
      → add32 l.write_index n ≡ l.write_index + n
      → write ops src l ≡ (ok n, record l { self = b; write_index = l.write_index + n })
  unfolding write on_self
  write_run l src n b chosen stored moved = rw (chosen, stored, moved) refl

  -- `write` stores as many bytes as it was given or as fit, whichever are fewer, behind those already
  -- written, and moves the write index past them.
  pub linear_write_lem :
      (l : Linear B) (src : List ℕ)
      → IsValid l
      → let n = min (length src) (ops.capacity l.self - l.write_index) in
        (b : B) × (write ops src l ≡ (ok n, record l { self = b; write_index = l.write_index + n }))
        × (ops.capacity b ≡ ops.capacity l.self)
        × (take (l.write_index + n) (bytes b) ≡ written l ++ take n src)
        × IsValid (record l { self = b; write_index = l.write_index + n })
  unfolding written
  linear_write_lem l src v =
      let w = l.write_index in
      let cap = ops.capacity l.self in
      let n = min (length src) (cap - w) in
      let small = laws.capacity_bound l.self v.self_valid in
      let inside = v.write_in in
      let chosen = pick (length src) cap w n inside small refl in
      let taken : length (take n src) ≡ n = omega (arith, length-take n src) in
      let stored = laws.write_within l.self (take n src) w v.self_valid (omega arith) in
      let moved : add32 w n ≡ w + n = omega arith in
      (
        stored.0,
        write_run l src n stored.0 chosen stored.1 moved,
        stored.3,
        ap (take (w + n)) stored.2
            ∙ take-overwrite (bytes l.self) w n (take n src)
                (omega (arith, laws.length-bytes l.self v.self_valid)) taken,
        record {
          self_valid = stored.4;
          read_in = omega (arith, v.read_in);
          write_in = omega (arith, stored.3);
          mark_in = Marks-mono l.mark w (w + n) (omega arith) v.mark_in;
        },
      )
