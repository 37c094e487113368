-- ===== src/Client/FlightVarsClient.antt =====
-- `flight_vars_client` of flightvars/src/lib/client.cpp. A call makes a request with a new promise and submits it; it returns
-- what the promise has been given when its wait ends, as the second function of each pair.
use open_airbus_cockpit.Prelude.{ℕ, Outcome, ok, throws, undefined, on_ok}
use open_airbus_cockpit.Var.Types.{VariableId}
use open_airbus_cockpit.Var.Value.{VariableValue}
use open_airbus_cockpit.Client.Exceptions.{
  ClientException, request_timeout_error, communication_error_by,
}
use open_airbus_cockpit.Client.Requests.{Answer, result, finished, failed, Answers, get_result}
use open_airbus_cockpit.Client.ConnectionManager.{
  ConnectionManager, Environment, submit_subscription, submit_unsubscription,
  submit_variable_update,
}

-- The `catch` clause of the three methods.
abbrev pub timed_out : {A : Type 0} → Outcome ClientException A → Outcome ClientException A
timed_out (throws request_timeout_error) = throws (communication_error_by request_timeout_error)
timed_out o = o

module _ {H U B : Type 0} (env : Environment H U B) where
  pub subscribe : ℕ → VariableId → H → ConnectionManager H U B → ConnectionManager H U B
  subscribe promise var handler =
      submit_subscription env (record { promise = promise; var_id = var; handler = handler })

  -- The member `_master_subs_id` is not initialized.
  pub unsubscribe :
      (promise uninitialized id : ℕ) → ConnectionManager H U B → ConnectionManager H U B
  unsubscribe promise uninitialized id =
      submit_unsubscription env
        (record { promise = promise; master_subs_id = uninitialized; virtual_subs_id = id })

  pub update : ℕ → ℕ → VariableValue → ConnectionManager H U B → ConnectionManager H U B
  update promise subs_id var_value =
      submit_variable_update env
        (record { promise = promise; virtual_subs_id = subs_id; var_value = var_value })

-- A promise of an identifier is given one, or an exception.
abbrev pub identifier : Answer → Outcome ClientException ℕ
identifier (result id) = ok id
identifier finished = undefined
identifier (failed e) = throws e

pub subscribe_returns : ℕ → Answers → Outcome ClientException ℕ
subscribe_returns promise answers = on_ok (timed_out (get_result promise answers)) identifier

-- `unsubscribe` and `update` have no result.
pub returns : ℕ → Answers → Outcome ClientException (Unit {0})
returns promise answers = on_ok (timed_out (get_result promise answers)) (λ _. ok tt)
