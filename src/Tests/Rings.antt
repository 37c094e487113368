-- ===== src/Tests/Rings.antt =====
-- Ring buffers.
use open_airbus_cockpit.Prelude.{
  ℕ, ◌≡◌, refl, inl, inr, arith, [], ◌∷◌, Option, none, some, ok, throws, diverges,
}
use open_airbus_cockpit.Exception.{index_out_of_bounds}
use open_airbus_cockpit.Buffer.Fixed.{Fixed, fixed_ops}
use open_airbus_cockpit.Buffer.Fixed.Access.{fixed_ops-IsBuffer}
use open_airbus_cockpit.Buffer.Ring.{Ring, read, write, write_rounds, set_mark, reset}
use open_airbus_cockpit.Buffer.Ring.Laws.{IsValid, contents, Took}
use open_airbus_cockpit.Buffer.Ring.Additions.{Put}
use open_airbus_cockpit.Buffer.Ring.Reading.{ring_read_lem}
use open_airbus_cockpit.Buffer.Ring.Writing.{ring_write_lem}
use open_airbus_cockpit.Buffer.Ring.Marks.{mark_read_reset, write_diverges}
use open_airbus_cockpit.Buffer.Ring.Faults.{read_full_throws}

abbrev memory : Fixed
memory = record { bytes = 1 ∷ 2 ∷ 3 ∷ 4 ∷ []; capacity = 4 }

abbrev ring_at : ℕ → ℕ → ℕ → Option ℕ → ℕ → Ring Fixed
ring_at r w n m d = record {
  self = memory;
  read_index = r;
  write_index = w;
  bytes_written = n;
  mark = m;
  dist_from_mark = d;
}

-- Three bytes, of which the last one lies at the beginning.
abbrev broken : Ring Fixed
broken = ring_at 2 1 3 none 0

broken-IsValid : IsValid fixed_ops-IsBuffer broken
broken-IsValid = record {
  self_valid = record { sized = refl; small = omega arith };
  positive = omega arith;
  read_in = omega arith;
  write_in = omega arith;
  start_in = omega arith;
  total = omega arith;
  no_mark = λ _. refl;
  from_start = inl refl;
  from_read = inr (inl refl);
}

-- As many bytes as fit, from the middle on.
abbrev full : Ring Fixed
full = ring_at 2 2 4 none 0

full-IsValid : IsValid fixed_ops-IsBuffer full
full-IsValid = record {
  self_valid = record { sized = refl; small = omega arith };
  positive = omega arith;
  read_in = omega arith;
  write_in = omega arith;
  start_in = omega arith;
  total = omega arith;
  no_mark = λ _. refl;
  from_start = inl refl;
  from_read = inr (inl refl);
}

-- One byte read since the mark, one more to be read.
abbrev marked : Ring Fixed
marked = ring_at 1 2 1 (some 0) 1

marked-IsValid : IsValid fixed_ops-IsBuffer marked
marked-IsValid = record {
  self_valid = record { sized = refl; small = omega arith };
  positive = omega arith;
  read_in = omega arith;
  write_in = omega arith;
  start_in = omega arith;
  total = omega arith;
  no_mark = λ e. absurd cc;
  from_start = inl refl;
  from_read = inl refl;
}

ring_read_lem_example :
    (r : Ring Fixed) × (read fixed_ops 5 broken ≡ (ok (3, 3 ∷ 4 ∷ 1 ∷ []), r))
    × Took fixed_ops-IsBuffer broken 3 r
unfolding contents
ring_read_lem_example =
    ring_read_lem fixed_ops-IsBuffer broken 5 broken-IsValid (λ e. absurd (omega arith))

ring_write_lem_example :
    (r : Ring Fixed) × (write fixed_ops (8 ∷ 9 ∷ []) broken ≡ (ok 1, r))
    × Put fixed_ops-IsBuffer broken (8 ∷ []) r
ring_write_lem_example = ring_write_lem fixed_ops-IsBuffer broken (8 ∷ 9 ∷ []) broken-IsValid

mark_read_reset_example :
    (r : Ring Fixed) × (read fixed_ops 3 (set_mark fixed_ops broken) ≡ (ok (3, 3 ∷ 4 ∷ 1 ∷ []), r))
    × IsValid fixed_ops-IsBuffer (reset fixed_ops r)
    × (contents fixed_ops-IsBuffer (reset fixed_ops r) ≡ 3 ∷ 4 ∷ 1 ∷ [])
unfolding contents
mark_read_reset_example =
    mark_read_reset fixed_ops-IsBuffer broken 3 broken-IsValid refl (λ e. absurd (omega arith))

read_full_throws_example : read fixed_ops 3 full ≡ (throws (index_out_of_bounds 5 0 3), full)
unfolding contents
read_full_throws_example =
    read_full_throws full 3 full-IsValid refl refl (omega arith) (omega arith)

-- A ring without capacity.
abbrev nothing : Ring Fixed
nothing = record {
  self = record { bytes = []; capacity = 0 };
  read_index = 0;
  write_index = 0;
  bytes_written = 0;
  mark = none;
  dist_from_mark = 0;
}

write_diverges_example : (write_rounds fixed_ops 100 (8 ∷ []) nothing).0 ≡ diverges
write_diverges_example =
    write_diverges fixed_ops-IsBuffer 100 (8 ∷ []) nothing
      (record { sized = refl; small = omega arith }) refl refl refl
