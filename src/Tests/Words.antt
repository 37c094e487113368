-- ===== src/Tests/Words.antt =====
-- Words, values and fixed buffers.
use open_airbus_cockpit.Prelude.{◌≡◌, refl, arith, [], ◌∷◌, ok, throws, on_ok, true}
use open_airbus_cockpit.Exception.{index_out_of_bounds}
use open_airbus_cockpit.Var.Value.{
  from_bool, from_byte, from_word, from_dword, from_float, as_bool, as_byte, as_word, as_dword,
  as_float,
}
use open_airbus_cockpit.Var.Value.Laws.{as-from}
use open_airbus_cockpit.Buffer.Fixed.{Fixed, read, write}
use open_airbus_cockpit.Buffer.Fixed.Access.{IsValid, read_write_bounds}

abbrev four : Fixed
four = record { bytes = 1 ∷ 2 ∷ 3 ∷ 4 ∷ []; capacity = 4 }

four-IsValid : IsValid four
four-IsValid = record { sized = refl; small = omega arith }

as-from_example :
    (on_ok (from_bool true) as_bool ≡ ok true)
    × (on_ok (from_byte 7) as_byte ≡ ok 7)
    × (on_ok (from_word 700) as_word ≡ ok 700)
    × (on_ok (from_dword 70000) as_dword ≡ ok 70000)
    × (on_ok (from_float 0x3f800000) as_float ≡ ok 0x3f800000)
as-from_example =
    as-from true 7 700 70000 0x3f800000 (omega arith) (omega arith) (omega arith) (omega arith)

read_write_bounds_example :
    (read four 3 2 ≡ throws (index_out_of_bounds 5 0 3))
    × (write (8 ∷ 9 ∷ []) 3 four ≡ (throws (index_out_of_bounds 5 0 3), four))
read_write_bounds_example = read_write_bounds 3 (8 ∷ 9 ∷ []) four-IsValid (omega arith)
