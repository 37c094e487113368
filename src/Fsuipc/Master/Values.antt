-- ===== src/Fsuipc/Master/Values.antt =====
-- Values of offsets as values of variables and back, and an update that reaches the memory of the dummy adapter.
use open_airbus_cockpit.Prelude.{
  ℕ, ◌+◌, ◌*◌, ◌%◌, ◌^◌, ◌≤◌, ◌≡◌, refl, ap, ◌∙◌, arith, List, [], ◌∷◌, length, Option, ok, on_ok,
  Action,
}
use open_airbus_cockpit.Prelude.Words.{u8_mod, u16_mod, u32_mod}
use open_airbus_cockpit.Var.Types.{VariableId}
use open_airbus_cockpit.Var.Value.{VariableValue}
use open_airbus_cockpit.Var.Value.Laws.{
  from_byte_lem, from_word_lem, from_dword_lem, as_byte_lem, as_word_lem, as_dword_lem,
}
use open_airbus_cockpit.Fsuipc.Offset.{
  Offset, OffsetLength, offset_len_byte, offset_len_word, offset_len_dword, bytes_of, ValuedOffset,
  FsuipcException,
}
use open_airbus_cockpit.Fsuipc.Client
use open_airbus_cockpit.Fsuipc.DummyAdapter.{
  DummyAdapter, dummy_user_adapter, process, schedule_write, write_requested, read_requested,
  write_value_to_buffer, read_value_from_buffer,
}
use open_airbus_cockpit.Fsuipc.DummyAdapter.Memory.{write_value_read_value}
use open_airbus_cockpit.Fsuipc.Names.{Boost}
use open_airbus_cockpit.Fsuipc.OffsetDb.{Handlers, get_offset_for_subscription}
use open_airbus_cockpit.Fsuipc.Master.{
  to_variable_value, to_fsuipc_offset_value, Environment, Master, update_offset, update,
}

converted :
    (truncate : ℕ → Option ℕ) (a n : ℕ) (len : OffsetLength)
    → on_ok
        (to_variable_value (record { offset = record { address = a; length = len }; value = n }))
        (to_fsuipc_offset_value truncate)
      ≡ ok (n % 2 ^ (8 * bytes_of len))
unfolding to_variable_value to_fsuipc_offset_value
converted truncate a n offset_len_byte =
    rw (from_byte_lem (n % u8_mod), as_byte_lem (n % u8_mod) (omega arith)) refl
converted truncate a n offset_len_word =
    rw (from_word_lem (n % u16_mod), as_word_lem (n % u16_mod) (omega arith)) refl
converted truncate a n offset_len_dword =
    rw (from_dword_lem (n % u32_mod), as_dword_lem (n % u32_mod) (omega arith)) refl

-- The value of an offset becomes a value of a variable of its length; that value becomes the number that it was, cut
-- to the bytes of the offset, whatever the conversion of floats.
pub to_fsuipc_offset_value-to_variable_value :
    (truncate : ℕ → Option ℕ) (v : ValuedOffset)
    → on_ok (to_variable_value v) (to_fsuipc_offset_value truncate)
      ≡ ok (v.value % 2 ^ (8 * bytes_of v.offset.length))
to_fsuipc_offset_value-to_variable_value truncate v =
    converted truncate v.offset.address v.value v.offset.length

-- An adapter without pending requests.
abbrev pub idle : List ℕ → DummyAdapter
idle buffer = record { buffer = buffer; read_requests = []; write_requests = [] }

client_update_written :
    (buffer buffer' : List ℕ) (o : Offset) (n : ℕ)
    → write_value_to_buffer o.address o.length n buffer ≡ (ok tt, buffer')
    → Client.update dummy_user_adapter (record { offset = o; value = n } ∷ []) (idle buffer)
      ≡ (ok tt, idle buffer')
unfolding Client.update Client.write_each schedule_write process write_requested read_requested
client_update_written buffer buffer' o n run = rw run refl

module _ {H U : Type 0} (boost : Boost) (reorder : Handlers H → Handlers H)
    (truncate : ℕ → Option ℕ)
    (call : H → VariableId → VariableValue → Action FsuipcException U (Unit {0})) where
  abbrev pub on_dummy : Environment DummyAdapter H U
  on_dummy = record {
    boost = boost;
    reorder = reorder;
    adapter = dummy_user_adapter;
    truncate = truncate;
    call = call;
  }

  -- A master on the dummy adapter, which has no pending requests, holds a subscription whose offset lies in the memory. Then
  -- `update` of that subscription returns, and what the memory holds at the offset is the number that the value
  -- stands for, cut to the bytes of the offset. The subscriptions and what is observed are as before.
  pub update_written :
      (id n : ℕ) (value : VariableValue) (o : Offset) (buffer : List ℕ)
      (m : Master DummyAdapter H U)
      → get_offset_for_subscription id m.db ≡ ok o
      → to_fsuipc_offset_value truncate value ≡ ok n
      → m.client ≡ idle buffer
      → o.address + bytes_of o.length ≤ length buffer
      → (buffer' : List ℕ) × (update on_dummy id value m
          ≡ (ok tt, record m { client = idle buffer' }))
        × (read_value_from_buffer o.address o.length buffer' ≡ ok (n % 2 ^ (8 * bytes_of o.length)))
        × (length buffer' ≡ length buffer)
  unfolding update update_offset
  update_written id n value o buffer m found number ready within =
      let (buffer', run, back, size, _) =
        write_value_read_value o.address o.length n buffer within in
      let done =
        ap (Client.update dummy_user_adapter (record { offset = o; value = n } ∷ [])) ready
        ∙ client_update_written buffer buffer' o n run in
      (buffer', rw (found, number, done) refl, back, size)
