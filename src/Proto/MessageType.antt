-- ===== src/Proto/MessageType.antt =====
-- `message_type` of flightvars/include/flightvars/proto.
use open_airbus_cockpit.Prelude.{ℕ}

-- `enum class message_type`. Any `int` may be cast to it, so it is the bit pattern of one.
abbrev pub MessageType : Type 0
MessageType = ℕ

abbrev pub begin_session : ℕ
begin_session = 0

abbrev pub end_session : ℕ
end_session = 1

abbrev pub subscription_req : ℕ
subscription_req = 2

abbrev pub subscription_rep : ℕ
subscription_rep = 3

abbrev pub unsubscription_req : ℕ
unsubscription_req = 4

abbrev pub unsubscription_rep : ℕ
unsubscription_rep = 5

abbrev pub var_update : ℕ
var_update = 6
