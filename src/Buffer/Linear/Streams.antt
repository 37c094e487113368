-- ===== src/Buffer/Linear/Streams.antt =====
-- A linear stream buffer is an input and an output stream: the bytes that `write` takes come out of
-- `read` in order.
use open_airbus_cockpit.Prelude.{
  ℕ, ◌+◌, ◌-◌, min, ◌≡◌, refl, sym, ap, ◌∙◌, arith, List, [], ◌++◌, length, take, drop, length-take,
  take-append-drop, drop-drop, drop-append_le, ok,
}
use open_airbus_cockpit.Buffer.Interface.{Buffer, IsBuffer}
use open_airbus_cockpit.Stream.Interface.{InputStream, OutputStream, IsInput, IsOutput}
use open_airbus_cockpit.Buffer.Linear.{Linear, create, read, write}
use open_airbus_cockpit.Buffer.Linear.Laws.{
  IsValid, written, pending, length-written, linear_read_lem, linear_write_lem,
}

abbrev pub linear_input : {B : Type 0} → Buffer B → InputStream (Linear B)
linear_input ops = record { read = read ops }

abbrev pub linear_output : {B : Type 0} → Buffer B → OutputStream (Linear B)
linear_output ops = record { write = write ops }

abbrev pub room : {B : Type 0} → Buffer B → Linear B → ℕ
room ops l = ops.capacity l.self - l.write_index

module _ {B : Type 0} {ops : Buffer B} {bytes : B → List ℕ} {Valid : B → Type 0}
    (laws : IsBuffer ops bytes Valid) where
  pub create-IsValid :
      (b : B) → Valid b → IsValid laws (create ops b) × (pending laws (create ops b) ≡ [])
  unfolding create pending written
  create-IsValid b v =
      (record { self_valid = v; read_in = omega arith; write_in = omega arith; mark_in = tt }, refl)

  pending-read :
      (l : Linear B) (n : ℕ)
      → pending laws (record l { read_index = l.read_index + n }) ≡ drop n (pending laws l)
  unfolding pending written
  pending-read l n = sym (drop-drop n l.read_index (written laws l))

  pub linear_input-IsInput : IsInput (linear_input ops) (pending laws) (IsValid laws)
  linear_input-IsInput = record {
    delivers = λ l count v.
        let p = pending laws l in
        let n = min count (length p) in
        let (run, valid) = linear_read_lem laws l count v in
        let size : length (take n p) ≡ n = omega (arith, length-take n p) in
        let after = record l { read_index = l.read_index + n } in
        (
          take n p,
          after,
          run ∙ ap (λ k. (ok (k, take n p), after)) (sym size),
          sym (take-append-drop n p) ∙ ap (λ xs. take n p ++ xs) (sym (pending-read l n)),
          omega arith,
          λ asked left. omega arith,
          valid,
        );
  }

  pending-write :
      (l : Linear B) (b : B) (n : ℕ) (xs : List ℕ)
      → IsValid laws l
      → take (l.write_index + n) (bytes b) ≡ written laws l ++ xs
      → pending laws (record l { self = b; write_index = l.write_index + n }) ≡ pending laws l ++ xs
  unfolding pending written
  pending-write l b n xs v e =
      ap (drop l.read_index) e
      ∙ drop-append_le l.read_index (written laws l) xs
          (omega (arith, length-written laws l v, v.read_in))

  pub linear_output-IsOutput : IsOutput (linear_output ops) (pending laws) (room ops) (IsValid laws)
  linear_output-IsOutput = record {
    accepts = λ l src v.
        let n = min (length src) (room ops l) in
        let (b, run, cap, joined, valid) = linear_write_lem laws l src v in
        (
          n,
          record l { self = b; write_index = l.write_index + n },
          run,
          pending-write l b n (take n src) v joined,
          omega arith,
          omega (arith, cap),
          λ given fits. omega arith,
          valid,
        );
  }
