-- ===== src/Buffer/Ring/Faults.antt =====
-- Reads that a ring over a fixed buffer refuses although it has the bytes, and marks that count too much.
use open_airbus_cockpit.Prelude.{ℕ, ◌+◌, ◌<◌, min, ◌≡◌, ap, ◌∙◌, arith, length, throws}
use open_airbus_cockpit.Prelude.Words.{u32_mod, sub32}
use open_airbus_cockpit.Exception.{index_out_of_bounds}
use open_airbus_cockpit.Buffer.Fixed.{Fixed, fixed_ops}
use open_airbus_cockpit.Buffer.Fixed.Access.{fixed_ops-IsBuffer, read_beyond}
use open_airbus_cockpit.Buffer.Ring.Laws.{IsValid, contents, length-contents}
use open_airbus_cockpit.Buffer.Ring.Reading.{read_full}
use open_airbus_cockpit.Buffer.Ring.{Ring, read, available_for_read, set_mark, reset}

-- A valid ring over a fixed buffer that is full, and reads and writes at one place, refuses every read of more bytes
-- than lie between that place and the end of the buffer, although it holds them: the buffer's exception comes
-- out of `read`, and nothing has changed.
pub read_full_throws :
    (r : Ring Fixed) (asked : ℕ)
    → IsValid fixed_ops-IsBuffer r
    → r.read_index ≡ r.write_index
    → r.bytes_written ≡ r.self.capacity
    → let k = min asked (length (contents fixed_ops-IsBuffer r)) in
      r.self.capacity < r.read_index + k
      → r.read_index + k < u32_mod
      → read fixed_ops asked r
        ≡ (throws (index_out_of_bounds (r.read_index + k) 0 (sub32 r.self.capacity 1)), r)
read_full_throws r asked v same full beyond small =
    let size = length-contents fixed_ops-IsBuffer r v in
    let n = min asked r.self.capacity in
    let count : n ≡ min asked (length (contents fixed_ops-IsBuffer r)) = omega arith in
    let refused = read_beyond r.self r.read_index n v.self_valid (omega arith) (omega arith) in
    read_full fixed_ops-IsBuffer r asked v same full (omega arith)
      (index_out_of_bounds (r.read_index + n) 0 (sub32 r.self.capacity 1)) refused
    ∙ ap (λ k. (throws (index_out_of_bounds (r.read_index + k) 0 (sub32 r.self.capacity 1)), r))
        count

-- On a valid ring that has read bytes since a mark, another `set_mark` and a `reset` right after it make the ring
-- claim to hold more bytes than it did, though nothing was read in between.
pub set_mark_stale :
    (r : Ring Fixed)
    → IsValid fixed_ops-IsBuffer r
    → 0 < r.dist_from_mark
    → available_for_read fixed_ops r
      < available_for_read fixed_ops (reset fixed_ops (set_mark fixed_ops r))
unfolding available_for_read reset set_mark
set_mark_stale r v read = omega (arith, v.total, v.self_valid.small)
