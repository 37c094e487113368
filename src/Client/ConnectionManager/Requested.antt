-- ===== src/Client/ConnectionManager/Requested.antt =====
-- The requests of the user, as `connection_manager` handles them on its thread.
use open_airbus_cockpit.Prelude.{
  List, [], ◌∷◌, if◌then◌else◌, none, some, Outcome, ◌>>=◌, ◌>>◌, return, catching,
}
use open_airbus_cockpit.Exception.{no_such_subscription_error}
use open_airbus_cockpit.Proto.Messages.{
  subscription_request_message, unsubscription_request_message, var_update_message,
}
use open_airbus_cockpit.Client.Exceptions.{
  ClientException, raised, is_no_such_element, is_no_such_virtual,
}
use open_airbus_cockpit.Client.SubscriptionDb.{
  entry_defined, add_virtual_subscription, remove_virtual_subscription, master_of_virtual,
}
use open_airbus_cockpit.Client.Requests.{
  result, finished, failed, SubscriptionRequest, UnsubscriptionRequest, update_master_subs_id,
  VariableUpdateRequest, insert_subscription, insert_unsubscription,
}
use open_airbus_cockpit.Client.ConnectionManager.{
  Posted, subscription_requested, unsubscription_requested, variable_update_requested,
  ConnectionManager, Step, Environment, on_db, set_answer, send_message,
}

module _ {H U B : Type 0} (env : Environment H U B) where
  open env use {call, report, memory, f}

  unfoldable pub on_subscription_requested : SubscriptionRequest H → Step H U B (Unit {0})
  unfolding send_message
  on_subscription_requested req c =
      if entry_defined req.var_id c.db
      then catching
          ((do
            virt_subs_id ← on_db env (add_virtual_subscription req.var_id req.handler)
            set_answer env req.promise (result virt_subs_id))
            c)
          (λ e. if is_no_such_element e then some (set_answer env req.promise (failed e)) else none)
      else (do
        λ d. return tt (record d { request_pool = insert_subscription req d.request_pool })
        send_message env (subscription_request_message req.var_id.group req.var_id.name))
          c

  unfoldable pub on_unsubscription_requested : UnsubscriptionRequest → Step H U B (Unit {0})
  unfolding send_message
  on_unsubscription_requested req c =
      catching
        ((do
          master_subs_id ← on_db env (master_of_virtual req.virtual_subs_id)
          let req' = update_master_subs_id master_subs_id req
          last ← on_db env (remove_virtual_subscription req.virtual_subs_id)
          if last
              then (do
                λ d.
                    return tt
                      (record d { request_pool = insert_unsubscription req' d.request_pool })
                send_message env (unsubscription_request_message master_subs_id))
              else set_answer env req.promise finished)
          c)
        (λ e.
          if is_no_such_virtual e
          then some (
              set_answer env req.promise
                (failed (raised (no_such_subscription_error req.virtual_subs_id))))
          else none)

  unfoldable pub on_variable_update_requested : VariableUpdateRequest → Step H U B (Unit {0})
  unfolding send_message
  on_variable_update_requested req c =
      catching
        ((do
          master_subs_id ← on_db env (master_of_virtual req.virtual_subs_id)
          send_message env (var_update_message master_subs_id req.var_value)
          set_answer env req.promise finished)
          c)
        (λ e.
          if is_no_such_virtual e
          then some (
              set_answer env req.promise
                (failed (raised (no_such_subscription_error req.virtual_subs_id))))
          else none)

  -- The next handler of the queue.
  pub run_posted : Step H U B (Unit {0})
  unfolding on_subscription_requested on_unsubscription_requested on_variable_update_requested
  run_posted c = next c.posted
    where
      next : List (Posted H) → Outcome ClientException (Unit {0}) × ConnectionManager H U B
      next [] = return tt c
      next (subscription_requested req ∷ rest) =
          on_subscription_requested req (record c { posted = rest })
      next (unsubscription_requested req ∷ rest) =
          on_unsubscription_requested req (record c { posted = rest })
      next (variable_update_requested req ∷ rest) =
          on_variable_update_requested req (record c { posted = rest })
