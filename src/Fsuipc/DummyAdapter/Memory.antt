-- ===== src/Fsuipc/DummyAdapter/Memory.antt =====
-- What the dummy adapter reads from its buffer is what it has written to it.
use open_airbus_cockpit.Prelude.{
  ℕ, zero, suc, ◌+◌, ◌*◌, ◌/◌, ◌%◌, ◌^◌, ◌<◌, ◌≤◌, ◌≡◌, ◌≢◌, ◌⊎◌, inl, inr, refl, ap, ◌∙◌, arith,
  List, [], ◌∷◌, length, some, Outcome, ok, and_then-ok, on_ok,
}
use open_airbus_cockpit.Prelude.Words.{add32}
use open_airbus_cockpit.Fsuipc.Offset.{
  FsuipcException, OffsetLength, offset_len_byte, offset_len_word, offset_len_dword, bytes_of,
}
use open_airbus_cockpit.Fsuipc.DummyAdapter.{
  element, set_element, add_byte, put_byte, read_value_from_buffer, write_value_to_buffer,
}

-- The array after an assignment.
record Assigned (xs : List ℕ) (i v : ℕ) (ys : List ℕ) : Type 0 where
  done : set_element xs i v ≡ some ys
  same_size : length ys ≡ length xs
  there : element ys i ≡ some v
  elsewhere : (j : ℕ) → j ≢ i → element ys j ≡ element xs j

set_element-Assigned : (xs : List ℕ) (i v : ℕ) → i < length xs → (ys : List ℕ) × Assigned xs i v ys
set_element-Assigned [] i v h = absurd (omega arith)
set_element-Assigned (x ∷ xs) zero v h =
    (v ∷ xs, record { done = refl; same_size = refl; there = refl; elsewhere = other })
  where
    other : (j : ℕ) → j ≢ zero → element (v ∷ xs) j ≡ element (x ∷ xs) j
    other zero ne = absurd (ne refl)
    other (suc j) ne = refl
set_element-Assigned (x ∷ xs) (suc i) v h =
    let (ys, a) = set_element-Assigned xs i v (omega arith) in
    (
      x ∷ ys,
      record {
        done = rw a.done refl;
        same_size = ap suc a.same_size;
        there = a.there;
        elsewhere = other ys a.elsewhere;
      },
    )
  where
    other :
        (ys : List ℕ)
        → ((j : ℕ) → j ≢ i → element ys j ≡ element xs j)
        → (j : ℕ) → j ≢ suc i
        → element (x ∷ ys) j ≡ element (x ∷ xs) j
    other ys rest zero ne = refl
    other ys rest (suc j) ne = rest j (λ e. ne (ap suc e))

put_byte-Assigned :
    (i bits val : ℕ) (xs : List ℕ)
    → i < length xs
    → (ys : List ℕ) × (put_byte i bits val xs ≡ (ok tt, ys))
      × Assigned xs i (val / 2 ^ bits % 256) ys
put_byte-Assigned i bits val xs h =
    let (ys, a) = set_element-Assigned xs i (val / 2 ^ bits % 256) h in
    (ys, rw (a.done, put_byte) refl, a)

add_byte-there :
    (i bits b value : ℕ) (xs : List ℕ)
    → element xs i ≡ some b
    → add_byte i bits xs value ≡ ok (add32 value (b * 2 ^ bits % 2 ^ 32))
add_byte-there i bits b value xs e = rw (e, add_byte) refl

on_ok-there :
    {A B : Type 0} {o : Outcome FsuipcException A} {a : A} (k : A → Outcome FsuipcException B)
    → o ≡ ok a
    → on_ok o k ≡ k a
on_ok-there k e = ap (λ o. on_ok o k) e

-- The sums of the bytes.
one_byte : (v : ℕ) → add32 0 (v / 2 ^ 0 % 256 * 2 ^ 0 % 2 ^ 32) ≡ v % 2 ^ 8
one_byte v = omega arith

two_bytes :
    (v : ℕ)
    → add32 (add32 0 (v / 2 ^ 8 % 256 * 2 ^ 8 % 2 ^ 32)) (v / 2 ^ 0 % 256 * 2 ^ 0 % 2 ^ 32)
      ≡ v % 2 ^ 16
two_bytes v = omega arith

four_bytes :
    (v : ℕ)
    → add32
        (add32
          (add32
            (add32 0 (v / 2 ^ 24 % 256 * 2 ^ 24 % 2 ^ 32))
            (v / 2 ^ 16 % 256 * 2 ^ 16 % 2 ^ 32))
          (v / 2 ^ 8 % 256 * 2 ^ 8 % 2 ^ 32))
        (v / 2 ^ 0 % 256 * 2 ^ 0 % 2 ^ 32)
      ≡ v % 2 ^ 32
four_bytes v = omega arith

-- A word that is written, whether it fits its bytes or not, is read back modulo the size of the word; the bytes
-- around it and the size of the buffer are unchanged. Its bytes are within the buffer.
pub write_value_read_value :
    (addr : ℕ) (len : OffsetLength) (val : ℕ) (buffer : List ℕ)
    → addr + bytes_of len ≤ length buffer
    → (buffer' : List ℕ) × (write_value_to_buffer addr len val buffer ≡ (ok tt, buffer'))
      × (read_value_from_buffer addr len buffer' ≡ ok (val % 2 ^ (8 * bytes_of len)))
      × (length buffer' ≡ length buffer)
      × ((j : ℕ) → (j < addr) ⊎ (addr + bytes_of len ≤ j) → element buffer' j ≡ element buffer j)
unfolding write_value_to_buffer read_value_from_buffer
write_value_read_value addr offset_len_byte val b0 h =
    let (b1, p1, a1) = put_byte-Assigned addr 0 val b0 (omega arith) in
    (
      b1,
      p1,
      add_byte-there addr 0 _ 0 b1 a1.there ∙ ap ok (one_byte val),
      a1.same_size,
      λ j out. a1.elsewhere j (λ e. elim out [ inl l ↦ omega arith | inr l ↦ omega arith ]),
    )
write_value_read_value addr offset_len_word val b0 h =
    let (b1, p1, a1) = put_byte-Assigned (addr + 1) 8 val b0 (omega arith) in
    let same1 = a1.same_size in
    let (b2, p2, a2) = put_byte-Assigned addr 0 val b1 (omega arith) in
    let e1 = a2.elsewhere (addr + 1) (λ e. omega arith) ∙ a1.there in
    (
      b2,
      and_then-ok _ p1 ∙ p2,
      on_ok-there _ (add_byte-there (addr + 1) 8 _ 0 b2 e1)
          ∙ add_byte-there addr 0 _ _ b2 a2.there
          ∙ ap ok (two_bytes val),
      a2.same_size ∙ a1.same_size,
      λ j out.
          a2.elsewhere j (λ e. elim out [ inl l ↦ omega arith | inr l ↦ omega arith ])
          ∙ a1.elsewhere j (λ e. elim out [ inl l ↦ omega arith | inr l ↦ omega arith ]),
    )
write_value_read_value addr offset_len_dword val b0 h =
    let (b1, p1, a1) = put_byte-Assigned (addr + 3) 24 val b0 (omega arith) in
    let same1 = a1.same_size in
    let (b2, p2, a2) = put_byte-Assigned (addr + 2) 16 val b1 (omega arith) in
    let same2 = a2.same_size in
    let (b3, p3, a3) = put_byte-Assigned (addr + 1) 8 val b2 (omega arith) in
    let same3 = a3.same_size in
    let (b4, p4, a4) = put_byte-Assigned addr 0 val b3 (omega arith) in
    let e1 = a4.elsewhere (addr + 1) (λ e. omega arith) ∙ a3.there in
    let e2 =
      a4.elsewhere (addr + 2) (λ e. omega arith)
      ∙ a3.elsewhere (addr + 2) (λ e. omega arith)
      ∙ a2.there in
    let e3 =
      a4.elsewhere (addr + 3) (λ e. omega arith)
      ∙ a3.elsewhere (addr + 3) (λ e. omega arith)
      ∙ a2.elsewhere (addr + 3) (λ e. omega arith)
      ∙ a1.there in
    (
      b4,
      and_then-ok _ p1 ∙ and_then-ok _ p2 ∙ and_then-ok _ p3 ∙ p4,
      on_ok-there _ (add_byte-there (addr + 3) 24 _ 0 b4 e3)
          ∙ on_ok-there _ (add_byte-there (addr + 2) 16 _ _ b4 e2)
          ∙ on_ok-there _ (add_byte-there (addr + 1) 8 _ _ b4 e1)
          ∙ add_byte-there addr 0 _ _ b4 a4.there
          ∙ ap ok (four_bytes val),
      a4.same_size ∙ a3.same_size ∙ a2.same_size ∙ a1.same_size,
      λ j out.
          a4.elsewhere j (λ e. elim out [ inl l ↦ omega arith | inr l ↦ omega arith ])
          ∙ a3.elsewhere j (λ e. elim out [ inl l ↦ omega arith | inr l ↦ omega arith ])
          ∙ a2.elsewhere j (λ e. elim out [ inl l ↦ omega arith | inr l ↦ omega arith ])
          ∙ a1.elsewhere j (λ e. elim out [ inl l ↦ omega arith | inr l ↦ omega arith ]),
    )
