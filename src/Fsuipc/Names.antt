-- ===== src/Fsuipc/Names.antt =====
-- `to_fsuipc_offset` of flightvars/src/module/fsuipc.cpp, with the functions that it parses names with. The functions of Boost are
-- the parameter `Boost`; the extraction of a hexadecimal number from a stream is that of the standard library.
use open_airbus_cockpit.Prelude.{
  ℕ, ◌+◌, ◌-◌, ◌*◌, ◌%◌, ◌^◌, ◌==◌, ltb, leb, if◌then◌else◌, Bool, true, false, ◌&&◌, ◌||◌, List,
  [], ◌∷◌, Option, none, some, Outcome, ok, throws, undefined,
}
use open_airbus_cockpit.Prelude.Maps.{same_string}
use open_airbus_cockpit.Var.Types.{VariableId}
use open_airbus_cockpit.Fsuipc.Offset.{
  OffsetLength, offset_len_byte, offset_len_word, offset_len_dword, Offset, FsuipcException,
  invalid_var_group_error, var_name_syntax_error,
}

-- `boost::split` by a colon, `boost::lexical_cast` to an unsigned number of some bits, and
-- `boost::algorithm::to_lower_copy`.
pub record Boost : Type 0 where
  pub split : List ℕ → List (List ℕ)
  pub lexical_cast : ℕ → List ℕ → Option ℕ
  pub to_lower_copy : List ℕ → List ℕ

-- "fsuipc/offset", "byte", "word", "dword" and "1".
abbrev pub var_group_tag : List ℕ
var_group_tag = 102 ∷ 115 ∷ 117 ∷ 105 ∷ 112 ∷ 99 ∷ 47 ∷ 111 ∷ 102 ∷ 102 ∷ 115 ∷ 101 ∷ 116 ∷ []

abbrev pub byte_text : List ℕ
byte_text = 98 ∷ 121 ∷ 116 ∷ 101 ∷ []

abbrev pub word_text : List ℕ
word_text = 119 ∷ 111 ∷ 114 ∷ 100 ∷ []

abbrev pub dword_text : List ℕ
dword_text = 100 ∷ word_text

abbrev pub one_text : List ℕ
one_text = 49 ∷ []

abbrev same_text : List ℕ → List ℕ → Bool
same_text s t = elim (same_string s t) [ yes _ ↦ true | no _ ↦ false ]

abbrev is_between : ℕ → ℕ → ℕ → Bool
is_between low high c = leb low c && leb c high

abbrev hex_digit : ℕ → Option ℕ
hex_digit c =
    if is_between 48 57 c
    then some (c - 48)
    else if is_between 97 102 c
    then some (c - 87)
    else if is_between 65 70 c
    then some (c - 55)
    else none

skip_spaces : List ℕ → List ℕ
skip_spaces [] = []
skip_spaces (c ∷ cs) =
    let rest = skip_spaces cs in if is_between 9 13 c || (c == 32) then rest else c ∷ cs

-- The digits up to the end of the stream; the flag says whether there was one.
hex_digits : Bool → ℕ → List ℕ → Option ℕ
hex_digits true value [] = some value
hex_digits false value [] = none
hex_digits _ value (c ∷ cs) = elim (hex_digit c) [
  | none ↦ none
  | some d ↦ hex_digits true (16 * value + d) cs
]

-- With and without the prefix `0x`.
abbrev hex_number : List ℕ → Option ℕ
hex_number (c ∷ x ∷ cs) =
    if (c == 48) && ((x == 120) || (x == 88))
    then hex_digits false 0 cs
    else hex_digits false 0 (c ∷ x ∷ cs)
hex_number cs = hex_digits false 0 cs

abbrev fitting : ℕ → (ℕ → ℕ) → Option ℕ → Option ℕ
fitting bits sign none = none
fitting bits sign (some v) = if ltb v (2 ^ bits) then some (sign v) else none

-- A number that does not fit fails; a minus sign negates within the bits.
abbrev signed_hex : ℕ → List ℕ → Option ℕ
signed_hex bits [] = none
signed_hex bits (c ∷ cs) =
    if c == 45
    then fitting bits (λ v. (2 ^ bits - v) % 2 ^ bits) (hex_number cs)
    else if c == 43
    then fitting bits (λ v. v) (hex_number cs)
    else fitting bits (λ v. v) (hex_number (c ∷ cs))

pub parse_hex_number : ℕ → List ℕ → Option ℕ
unfolding skip_spaces hex_digits
parse_hex_number bits str = signed_hex bits (skip_spaces str)

unfoldable pub first_of : Option ℕ → Option ℕ → Option ℕ
first_of none o = o
first_of (some n) o = some n

module _ (boost : Boost) where
  pub parse_textual_length : List ℕ → Option ℕ
  parse_textual_length str =
      let lower = boost.to_lower_copy str in
      if same_text lower byte_text
      then some 1
      else if same_text lower word_text
      then some 2
      else if same_text lower dword_text
      then some 4
      else none

  unfoldable pub to_offset_length : ℕ → Option OffsetLength
  to_offset_length len =
      if len == 1
      then some offset_len_byte
      else if len == 2
      then some offset_len_word
      else if len == 4
      then some offset_len_dword
      else none

  -- The offset of an address and a length, where neither is a syntax error.
  unfoldable pub parse_offset : List ℕ → List ℕ → Option Offset
  unfolding parse_hex_number parse_textual_length first_of to_offset_length
  parse_offset address length =
      elim (first_of (boost.lexical_cast 16 address) (parse_hex_number 16 address)) [
        | none ↦ none
        | some addr ↦
            elim (first_of (boost.lexical_cast 32 length)
              (first_of (parse_hex_number 32 length) (parse_textual_length length))) [
                | none ↦ none
                | some n ↦ elim (to_offset_length n) [
                  | none ↦ none
                  | some len ↦ some (record { address = addr; length = len })
                ]
              ]
      ]

  -- What the parts of a name are; `parts[0]` of no parts is undefined.
  unfoldable pub offset_of_parts : List ℕ → List (List ℕ) → Outcome FsuipcException Offset
  unfolding parse_offset
  offset_of_parts name [] = undefined
  offset_of_parts name (address ∷ []) = elim (parse_offset address one_text) [
    | none ↦ throws (var_name_syntax_error name)
    | some o ↦ ok o
  ]
  offset_of_parts name (address ∷ length ∷ []) = elim (parse_offset address length) [
    | none ↦ throws (var_name_syntax_error name)
    | some o ↦ ok o
  ]
  offset_of_parts name (_ ∷ _ ∷ _ ∷ _) = throws (var_name_syntax_error name)

  unfoldable pub to_fsuipc_offset : VariableId → Outcome FsuipcException Offset
  unfolding offset_of_parts
  to_fsuipc_offset var_id =
      if same_text var_id.group var_group_tag
      then offset_of_parts var_id.name (boost.split var_id.name)
      else throws (invalid_var_group_error var_group_tag var_id.group)
