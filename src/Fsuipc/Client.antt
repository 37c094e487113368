-- ===== src/Fsuipc/Client.antt =====
-- `fsuipc_client` of liboac/include/liboac/fsuipc/client.h over any user adapter. The pointer that the adapter keeps is the
-- place of a value in the list of the query.
use open_airbus_cockpit.Prelude.{
  ℕ, ◌+◌, List, [], ◌∷◌, length, replicate, Action, and_then, ◌>>=◌, ◌>>◌, return,
}
use open_airbus_cockpit.Fsuipc.Offset.{Offset, ValuedOffset, FsuipcException}

-- The concept `FsuipcUserAdapter`; `process` is given the values that the pointers lead to.
pub record UserAdapter (S : Type 0) : Type 0 where
  pub read : ℕ → Offset → Action FsuipcException S (Unit {0})
  pub write : ValuedOffset → Action FsuipcException S (Unit {0})
  pub process : List ℕ → Action FsuipcException S (List ℕ)

-- The offsets with their values.
abbrev pub valued : List Offset → List ℕ → List ValuedOffset
valued [] vs = []
valued (o ∷ os) [] = []
valued (o ∷ os) (v ∷ vs) = record { offset = o; value = v } ∷ valued os vs

-- The loop over the values that were read.
unfoldable pub evaluate_each :
    {T : Type 0}
    → (ValuedOffset → Action FsuipcException T (Unit {0}))
    → List ValuedOffset
    → Action FsuipcException T (Unit {0})
evaluate_each evaluate [] = return tt
evaluate_each evaluate (v ∷ vs) = evaluate v >> evaluate_each evaluate vs

module _ {S : Type 0} (adapter : UserAdapter S) where
  unfoldable pub read_each : ℕ → List Offset → Action FsuipcException S (Unit {0})
  read_each i [] = return tt
  read_each i (o ∷ os) = adapter.read i o >> read_each (i + 1) os

  -- `query` up to its last loop.
  unfoldable pub read_values : List Offset → Action FsuipcException S (List ValuedOffset)
  unfolding read_each
  read_values offsets = do
    read_each 0 offsets
    values ← adapter.process (replicate (length offsets) 0)
    return (valued offsets values)

  -- The evaluation changes a state of its own, next to the adapter's.
  unfoldable pub query :
      {T : Type 0}
      → List Offset
      → (ValuedOffset → Action FsuipcException T (Unit {0}))
      → Action FsuipcException (S × T) (Unit {0})
  unfolding read_values evaluate_each
  query [] evaluate c = return tt c
  query (o ∷ os) evaluate (s, t) =
      let (r, s') = read_values (o ∷ os) s in
      and_then (r, (s', t))
        λ values (s'', t'). let (r', t'') = evaluate_each evaluate values t' in (r', (s'', t''))

  unfoldable pub write_each : List ValuedOffset → Action FsuipcException S (Unit {0})
  write_each [] = return tt
  write_each (v ∷ vs) = adapter.write v >> write_each vs

  unfoldable pub update : List ValuedOffset → Action FsuipcException S (Unit {0})
  unfolding write_each
  update [] = return tt
  update (v ∷ vs) = do write_each (v ∷ vs); adapter.process []; return tt
