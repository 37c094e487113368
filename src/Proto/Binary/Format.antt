-- ===== src/Proto/Binary/Format.antt =====
-- The binary format of the protocol, written down apart from the code: numbers with their most
-- significant byte first, strings after a two-byte length, CR LF at the end of a message.
use open_airbus_cockpit.Prelude.{ℕ, ◌/◌, ◌%◌, ◌^◌, ◌<◌, Bool, List, [], ◌∷◌, ◌++◌, length}
use open_airbus_cockpit.Prelude.Words.{u8_mod, u16_mod, u32_mod}
use open_airbus_cockpit.Var.Value.{VariableValue, bool_byte}
use open_airbus_cockpit.Var.Types.{boolean, byte, word, dword, float}
use open_airbus_cockpit.Var.Value.Laws.{value_of}
use open_airbus_cockpit.Proto.Messages.{
  Message, begin_session_message, end_session_message, subscription_request_message,
  subscription_reply_message, unsubscription_request_message, unsubscription_reply_message,
  var_update_message,
}
use open_airbus_cockpit.Proto.Binary.{FloatOps, float_parts, float_of_parts}

abbrev pub u8 : ℕ → List ℕ
u8 v = v ∷ []

abbrev pub u16 : ℕ → List ℕ
u16 v = v / 2 ^ 8 ∷ v % 2 ^ 8 ∷ []

abbrev pub u32 : ℕ → List ℕ
u32 v = v / 2 ^ 24 ∷ v / 2 ^ 16 % 256 ∷ v / 2 ^ 8 % 256 ∷ v % 256 ∷ []

abbrev pub text : List ℕ → List ℕ
text s = u16 (length s) ++ s

-- What a variable holds, with the width of its type.
pub data Content : Type 0 where
  bool_content : Bool → Content
  byte_content : (v : ℕ) → v < u8_mod → Content
  word_content : (v : ℕ) → v < u16_mod → Content
  dword_content : (v : ℕ) → v < u32_mod → Content
  float_content : (v : ℕ) → v < u32_mod → Content

abbrev pub value : Content → VariableValue
value (bool_content b) = value_of boolean 1 (bool_byte b)
value (byte_content v _) = value_of byte 1 v
value (word_content v _) = value_of word 2 v
value (dword_content v _) = value_of dword 4 v
value (float_content v _) = value_of float 4 v

-- A message with the content of its variable laid open.
pub data Packet : Type 0 where
  begin_session : List ℕ → ℕ → Packet
  end_session : List ℕ → Packet
  subscription_request : List ℕ → List ℕ → Packet
  subscription_reply : ℕ → List ℕ → List ℕ → ℕ → List ℕ → Packet
  unsubscription_request : ℕ → Packet
  unsubscription_reply : ℕ → ℕ → List ℕ → Packet
  var_update : ℕ → Content → Packet

abbrev pub message : Packet → Message
message (begin_session pname ver) = begin_session_message pname ver
message (end_session cause) = end_session_message cause
message (subscription_request grp name) = subscription_request_message grp name
message (subscription_reply st grp name id cause) = subscription_reply_message st grp name id cause
message (unsubscription_request id) = unsubscription_request_message id
message (unsubscription_reply st id cause) = unsubscription_reply_message st id cause
message (var_update id c) = var_update_message id (value c)

-- Every number is within the width of its member, and every string is short enough for its length.
abbrev pub Fits : Packet → Type 0
Fits (begin_session pname ver) = (length pname < u16_mod) × (ver < u16_mod)
Fits (end_session cause) = (length cause < u16_mod) × Unit {0}
Fits (subscription_request grp name) = (length grp < u16_mod) × (length name < u16_mod)
Fits (subscription_reply st grp name id cause) =
    (st < u8_mod)
    × (length grp < u16_mod)
    × (length name < u16_mod)
    × (id < u32_mod)
    × (length cause < u16_mod)
Fits (unsubscription_request id) = (id < u32_mod) × Unit {0}
Fits (unsubscription_reply st id cause) = (st < u8_mod) × (id < u32_mod) × (length cause < u16_mod)
Fits (var_update id c) = (id < u32_mod) × Unit {0}

abbrev pub crlf : List ℕ
crlf = 0x0d ∷ 0x0a ∷ []

module _ (f : FloatOps) where
  abbrev pub float_number : ℕ → List ℕ
  float_number v = u32 (float_parts f v).0 ++ u32 (float_parts f v).1

  -- The type code and the value of a variable.
  abbrev pub content : Content → List ℕ
  content (bool_content b) = u8 0 ++ u8 (bool_byte b)
  content (byte_content v _) = u8 1 ++ u8 v
  content (word_content v _) = u8 2 ++ u16 v
  content (dword_content v _) = u8 3 ++ u32 v
  content (float_content v _) = u8 4 ++ float_number v

  abbrev pub encode : Packet → List ℕ
  encode (begin_session pname ver) = u16 0x700 ++ (text pname ++ (u16 ver ++ crlf))
  encode (end_session cause) = u16 0x701 ++ (text cause ++ crlf)
  encode (subscription_request grp name) = u16 0x702 ++ (text grp ++ (text name ++ crlf))
  encode (subscription_reply st grp name id cause) =
      u16 0x703 ++ (u8 st ++ (text grp ++ (text name ++ (u32 id ++ (text cause ++ crlf)))))
  encode (unsubscription_request id) = u16 0x704 ++ (u32 id ++ crlf)
  encode (unsubscription_reply st id cause) =
      u16 0x705 ++ (u8 st ++ (u32 id ++ (text cause ++ crlf)))
  encode (var_update id c) = u16 0x706 ++ (u32 id ++ (content c ++ crlf))

  -- The message that arrives: a float comes as what its two parts make.
  abbrev pub received : Packet → Message
  received (var_update id (float_content v _)) =
      var_update_message id
        (value_of float 4 (float_of_parts f (float_parts f v).0 (float_parts f v).1))
  received p = message p
