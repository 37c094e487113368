-- ===== src/Proto/Messages.antt =====
-- flightvars/include/flightvars/proto/types.h and messages.h. A string is the list of its bytes.
use open_airbus_cockpit.Prelude.{ℕ, List}
use open_airbus_cockpit.Var.Value.{VariableValue}
use open_airbus_cockpit.Proto.MessageType
use open_airbus_cockpit.Proto.MessageType.{MessageType}
use open_airbus_cockpit.Proto.SubscriptionStatus.{SubscriptionStatus}

-- `boost::variant` of the message structures, with their members in order.
pub data Message : Type 0 where
  -- pname, proto_ver
  begin_session_message : List ℕ → ℕ → Message
  -- cause
  end_session_message : List ℕ → Message
  -- var_grp, var_name
  subscription_request_message : List ℕ → List ℕ → Message
  -- st, var_grp, var_name, subs_id, cause
  subscription_reply_message : SubscriptionStatus → List ℕ → List ℕ → ℕ → List ℕ → Message
  -- subs_id
  unsubscription_request_message : ℕ → Message
  -- st, subs_id, cause
  unsubscription_reply_message : SubscriptionStatus → ℕ → List ℕ → Message
  -- subs_id, var_value
  var_update_message : ℕ → VariableValue → Message

pub get_message_type : Message → MessageType
get_message_type (begin_session_message _ _) = MessageType.begin_session
get_message_type (end_session_message _) = MessageType.end_session
get_message_type (subscription_request_message _ _) = MessageType.subscription_req
get_message_type (subscription_reply_message _ _ _ _ _) = MessageType.subscription_rep
get_message_type (unsubscription_request_message _) = MessageType.unsubscription_req
get_message_type (unsubscription_reply_message _ _ _) = MessageType.unsubscription_rep
get_message_type (var_update_message _ _) = MessageType.var_update
