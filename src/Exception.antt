-- ===== src/Exception.antt =====
-- The exceptions that the modelled code throws, with the parameters that their classes declare
-- (liboac/include/liboac/io.h and liboac/include/liboac/buffer/errors.h,
-- flightvars/include/flightvars/proto/errors.h, var.h, api.h and core.h). All of them derive from
-- oac::exception. An `int` parameter is its bit pattern.
use open_airbus_cockpit.Prelude.{ℕ, List, Outcome, Action}
use open_airbus_cockpit.Var.Types.{VariableType, VariableId}

pub data Exception : Type 0 where
  -- the index, the lower bound and the upper bound
  index_out_of_bounds : ℕ → ℕ → ℕ → Exception
  eof_error : Exception
  boost_asio_error : ℕ → Exception
  connection_reset : Exception
  invalid_variable_type : ℕ → Exception
  invalid_message_type : ℕ → Exception
  invalid_termination_mark : ℕ → Exception
  -- in the order in which check_type passes them
  invalid_type_error : VariableType → VariableType → Exception
  no_such_variable_error : VariableId → Exception
  no_such_subscription_error : ℕ → Exception
  -- the subscription, and the type that does not suit it
  invalid_value_type_error : ℕ → VariableType → Exception
  master_already_registered : List ℕ → Exception

-- A call that returns an `A`, and one that works on an object of type `S`.
abbrev pub Result : Type 0 → Type 0
Result A = Outcome Exception A

abbrev pub Method : Type 0 → Type 0 → Type 0
Method S A = Action Exception S A
