-- ===== src/Fsuipc/Offset.antt =====
-- liboac/include/liboac/fsuipc/offset.h, and the exceptions of the client and of the master.
use open_airbus_cockpit.Prelude.{ℕ, List, ap, ap₂}
use open_airbus_cockpit.Prelude.Maps.{same_number}
use open_airbus_cockpit.Exception.{Exception}

pub data OffsetLength : Type 0 where
  offset_len_byte offset_len_word offset_len_dword : OffsetLength

unfoldable pub OffsetLength-discrete : Discrete OffsetLength
OffsetLength-discrete = hlevel

-- The number of the enumerator.
abbrev pub bytes_of : OffsetLength → ℕ
bytes_of offset_len_byte = 1
bytes_of offset_len_word = 2
bytes_of offset_len_dword = 4

pub record Offset : Type 0 where
  pub address : ℕ
  pub length : OffsetLength

-- `operator ==` on offsets, which their containers use.
instance abbrev pub same_offset : Discrete Offset
same_offset o p = elim (same_number o.address p.address) [
  | no h ↦ no (λ q. h (ap (λ u. u.address) q))
  | yes e ↦ elim (OffsetLength-discrete o.length p.length) [
    | no h ↦ no (λ q. h (ap (λ u. u.length) q))
    | yes f ↦ yes (ap₂ (λ a l. record { address = a; length = l }) e f)
  ]
]

-- `valued_offset` with its base.
pub record ValuedOffset : Type 0 where
  pub offset : Offset
  pub value : ℕ

pub data FsuipcException : Type 0 where
  -- the code and the text of the library
  fsuipc_error : ℕ → List ℕ → FsuipcException
  -- the expected and the actual group
  invalid_var_group_error : List ℕ → List ℕ → FsuipcException
  var_name_syntax_error : List ℕ → FsuipcException
  no_such_offset_error : ℕ → OffsetLength → FsuipcException
  db_no_such_subscription_error : ℕ → FsuipcException
  raised : Exception → FsuipcException
