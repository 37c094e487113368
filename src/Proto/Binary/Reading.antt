-- ===== src/Proto/Binary/Reading.antt =====
-- The binary deserializer takes the format.
use open_airbus_cockpit.Prelude.{
  ℕ, ◌+◌, ◌*◌, ◌<◌, ◌≡◌, refl, sym, ap, ap₂, ◌∙◌, arith, List, [], length, append-nil,
  if◌then◌else◌, ◌>>=◌, return, throw, ◌==◌,
}
use open_airbus_cockpit.Prelude.Words.{u16_mod, u32_mod, of_bytes, of_bytes-to_bytes}
use open_airbus_cockpit.Exception.{invalid_termination_mark, Method}
use open_airbus_cockpit.Endian.{
  native_to_big_u16, native_to_big_u32, big_to_native_u16, big_to_native_u32,
}
use open_airbus_cockpit.Endian.Swap.{native_to_big_u16_lem, native_to_big_u32_lem}
use open_airbus_cockpit.Stream.Interface.{InputStream, IsInput}
use open_airbus_cockpit.Stream.{read_as, read_as_string}
use open_airbus_cockpit.Stream.Reads.{
  Gives, >>=-Gives, return-Gives, read_as-Gives, read_as_string-Gives,
}
use open_airbus_cockpit.Proto.Binary.{
  FloatOps, float_parts, float_of_parts, code_to_msg_type, read_msg_begin, read_msg_end,
  read_string_value, read_uint8_value, read_uint16_value, read_uint32_value, read_float_value,
}
use open_airbus_cockpit.Proto.Binary.Format.{u8, u16, u32, text, float_number, crlf}
use open_airbus_cockpit.Proto.Binary.Writing.{parts_bound}

big_to_native-u16 : (v : ℕ) → v < u16_mod → big_to_native_u16 (of_bytes (u16 v)) ≡ v
big_to_native-u16 v h =
    let (back, bound, bytes) = native_to_big_u16_lem v h in
    ap (λ bs. big_to_native_u16 (of_bytes bs)) (sym bytes)
    ∙ ap big_to_native_u16 (of_bytes-to_bytes 2 (native_to_big_u16 v) bound)
    ∙ back

big_to_native-u32 : (v : ℕ) → v < u32_mod → big_to_native_u32 (of_bytes (u32 v)) ≡ v
big_to_native-u32 v h =
    let (back, bound, bytes) = native_to_big_u32_lem v h in
    ap (λ bs. big_to_native_u32 (of_bytes bs)) (sym bytes)
    ∙ ap big_to_native_u32 (of_bytes-to_bytes 4 (native_to_big_u32 v) bound)
    ∙ back

module _ (f : FloatOps) {S : Type 0} {input : InputStream S} {left : S → List ℕ}
    {Ready : S → Type 0} (laws : IsInput input left Ready) where
  -- A read followed by a computation on its result.
  map-Gives :
      {A B : Type 0} {m : Method S A} (g : A → B) {a : A} {b : B} (bs : List ℕ)
      → Gives laws m a bs
      → g a ≡ b
      → Gives laws (m >>= λ x. return (g x)) b bs
  map-Gives {m = m} g {a} {b} bs h e =
      let last : Gives laws (return (g a)) b [] = rw (← e) (return-Gives laws (g a)) in
      rw (append-nil bs) at (>>=-Gives laws (λ x. return (g x)) bs [] h last)

  pub msg_begin-Gives : (k : ℕ) → k < 7 → Gives laws (read_msg_begin f input) k (u16 (0x700 + k))
  unfolding read_msg_begin code_to_msg_type
  msg_begin-Gives k h =
      map-Gives (λ code. code_to_msg_type (big_to_native_u16 code)) (u16 (0x700 + k))
        (read_as-Gives laws 2 (u16 (0x700 + k)) refl (omega arith))
        (ap code_to_msg_type (big_to_native-u16 (0x700 + k) (omega arith)) ∙ omega arith)

  pub msg_end-Gives : Gives laws (read_msg_end f input) tt crlf
  unfolding read_msg_end native_to_big_u16 of_bytes
  msg_end-Gives =
      >>=-Gives laws
        (λ mark.
          let eol = native_to_big_u16 mark in
          if eol == 0x0d0a then return tt else throw (invalid_termination_mark eol))
        crlf [] (read_as-Gives laws 2 crlf refl (omega arith)) (return-Gives laws tt)

  pub string_value-Gives :
      (s : List ℕ) → length s < u16_mod → Gives laws (read_string_value f input) s (text s)
  unfolding read_string_value
  string_value-Gives s h =
      >>=-Gives laws (λ n. read_as_string input (big_to_native_u16 n)) (u16 (length s)) s
        (read_as-Gives laws 2 (u16 (length s)) refl (omega arith))
        (rw (big_to_native-u16 (length s) h) (read_as_string-Gives laws s (omega arith)))

  pub uint8_value-Gives : (v : ℕ) → Gives laws (read_uint8_value f input) v (u8 v)
  unfolding read_uint8_value of_bytes
  uint8_value-Gives v =
      let byte : v + 256 * 0 ≡ v = omega arith in
      rw byte at (read_as-Gives laws 1 (u8 v) refl (omega arith))

  pub uint16_value-Gives : (v : ℕ) → v < u16_mod → Gives laws (read_uint16_value f input) v (u16 v)
  unfolding read_uint16_value
  uint16_value-Gives v h =
      map-Gives big_to_native_u16 (u16 v) (read_as-Gives laws 2 (u16 v) refl (omega arith))
        (big_to_native-u16 v h)

  pub uint32_value-Gives : (v : ℕ) → v < u32_mod → Gives laws (read_uint32_value f input) v (u32 v)
  unfolding read_uint32_value
  uint32_value-Gives v h =
      map-Gives big_to_native_u32 (u32 v) (read_as-Gives laws 4 (u32 v) refl (omega arith))
        (big_to_native-u32 v h)

  pub float_value-Gives :
      (v : ℕ)
      → Gives laws
          (read_float_value f input)
          (float_of_parts f (float_parts f v).0 (float_parts f v).1)
          (float_number f v)
  unfolding read_float_value
  float_value-Gives v =
      let (sig, exp) = float_parts f v in
      let (sig_bound, exp_bound) = parts_bound f v in
      >>=-Gives laws
        (λ nsig. read_as input 4 >>= λ e.
          return (float_of_parts f (big_to_native_u32 nsig) (big_to_native_u32 e)))
        (u32 sig) (u32 exp) (read_as-Gives laws 4 (u32 sig) refl (omega arith))
        (map-Gives
          (λ e. float_of_parts f (big_to_native_u32 (of_bytes (u32 sig))) (big_to_native_u32 e))
          (u32 exp) (read_as-Gives laws 4 (u32 exp) refl (omega arith))
          (ap₂ (float_of_parts f) (big_to_native-u32 sig sig_bound)
            (big_to_native-u32 exp exp_bound)))
