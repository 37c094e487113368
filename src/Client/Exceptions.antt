-- ===== src/Client/Exceptions.antt =====
-- The exceptions of the client: flightvars/include/flightvars/client/errors.h, those of its database, and those that it passes on.
use open_airbus_cockpit.Prelude.{Bool, true, false}
use open_airbus_cockpit.Exception.{
  Exception, eof_error, connection_reset, boost_asio_error, invalid_variable_type,
  invalid_message_type, invalid_termination_mark,
}
use open_airbus_cockpit.Proto.MessageType.{MessageType}
use open_airbus_cockpit.Client.SubscriptionDb.{
  DbException, variable_already_exists_error, master_subscription_already_exists_error,
  no_such_variable_error, no_such_master_subscription_error, no_such_virtual_subscription_error,
}

pub data ClientException : Type 0 where
  raised : Exception → ClientException
  raised_by_db : DbException → ClientException
  unexpected_message_error : MessageType → ClientException
  -- without and with the exception that caused it
  communication_error : ClientException
  communication_error_by : ClientException → ClientException
  request_timeout_error : ClientException
  -- `std::future_error`, which does not derive from `oac::exception`
  promise_already_satisfied : ClientException
  -- the part of an exception that is a `std::exception`
  sliced : ClientException

-- `io_exception`, `protocol_exception` and the classes of the database's exceptions.
abbrev pub is_io : ClientException → Bool
is_io (raised eof_error) = true
is_io (raised connection_reset) = true
is_io (raised (boost_asio_error _)) = true
is_io _ = false

abbrev pub is_eof : ClientException → Bool
is_eof (raised eof_error) = true
is_eof _ = false

abbrev pub is_protocol : ClientException → Bool
is_protocol (raised (invalid_variable_type _)) = true
is_protocol (raised (invalid_message_type _)) = true
is_protocol (raised (invalid_termination_mark _)) = true
is_protocol (unexpected_message_error _) = true
is_protocol _ = false

abbrev pub is_oac : ClientException → Bool
is_oac promise_already_satisfied = false
is_oac sliced = false
is_oac _ = true

abbrev pub is_no_such_element : ClientException → Bool
is_no_such_element (raised_by_db (no_such_variable_error _)) = true
is_no_such_element (raised_by_db (no_such_master_subscription_error _)) = true
is_no_such_element (raised_by_db (no_such_virtual_subscription_error _)) = true
is_no_such_element _ = false

abbrev pub is_already_exists : ClientException → Bool
is_already_exists (raised_by_db (variable_already_exists_error _)) = true
is_already_exists (raised_by_db (master_subscription_already_exists_error _)) = true
is_already_exists _ = false

abbrev pub is_no_such_virtual : ClientException → Bool
is_no_such_virtual (raised_by_db (no_such_virtual_subscription_error _)) = true
is_no_such_virtual _ = false

-- The conversion of an argument of the error handler, by the constructors of `communication_error`.
abbrev pub to_communication_error : ClientException → ClientException
to_communication_error communication_error = communication_error
to_communication_error (communication_error_by e) = communication_error_by e
to_communication_error e = communication_error_by e
