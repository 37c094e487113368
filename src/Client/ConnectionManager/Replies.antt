-- ===== src/Client/ConnectionManager/Replies.antt =====
-- The messages of the server, as `connection_manager` handles them.
use open_airbus_cockpit.Prelude.{
  ℕ, List, [], ◌∷◌, false, ◌==◌, if◌then◌else◌, none, some, ◌>>=◌, ◌>>◌, return, throw, catching,
  raise,
}
use open_airbus_cockpit.Exception.{no_such_variable_error, no_such_subscription_error}
use open_airbus_cockpit.Var.Types.{VariableId, variable_id}
use open_airbus_cockpit.Var.Value.{VariableValue}
use open_airbus_cockpit.Proto.MessageType
use open_airbus_cockpit.Proto.Messages.{
  Message, subscription_reply_message, unsubscription_reply_message, var_update_message,
  get_message_type,
}
use open_airbus_cockpit.Proto.SubscriptionStatus.{
  SubscriptionStatus, subscribed, unsubscribed, no_such_var, no_such_subscription,
}
use open_airbus_cockpit.Client.Exceptions.{
  raised, raised_by_db, unexpected_message_error, communication_error_by, is_no_such_element,
  is_already_exists,
}
use open_airbus_cockpit.Client.SubscriptionDb.{
  entry_defined, create_entry, add_virtual_subscription, invoke_handlers,
}
use open_airbus_cockpit.Client.Requests.{
  Answer, result, finished, failed, SubscriptionRequest, UnsubscriptionRequest,
  pop_subscription_requests, pop_unsubscription_requests,
}
use open_airbus_cockpit.Client.ConnectionManager.{Step, Environment, on_db, set_answer, on_error}

module _ {H U B : Type 0} (env : Environment H U B) where
  open env use {call, report, memory, f}

  -- The loops over the requests that a reply answers.
  unfoldable pub refuse_each : VariableId → List (SubscriptionRequest H) → Step H U B (Unit {0})
  refuse_each var_id [] = return tt
  refuse_each var_id (req ∷ reqs) = do
    set_answer env req.promise (failed (raised (no_such_variable_error var_id)))
    refuse_each var_id reqs

  unfoldable pub subscribe_one : VariableId → ℕ → SubscriptionRequest H → Step H U B (Unit {0})
  subscribe_one var_id subs_id req c =
      catching
        ((do
          virt_subs_id ←
              if entry_defined var_id c.db
              then on_db env (add_virtual_subscription var_id req.handler)
              else on_db env (create_entry var_id subs_id req.handler)
          set_answer env req.promise (result virt_subs_id))
          c)
        (λ e. if is_already_exists e then some (throw (communication_error_by e)) else none)

  unfoldable pub subscribe_each :
      VariableId → ℕ → List (SubscriptionRequest H) → Step H U B (Unit {0})
  unfolding subscribe_one
  subscribe_each var_id subs_id [] = return tt
  subscribe_each var_id subs_id (req ∷ reqs) =
      subscribe_one var_id subs_id req >> subscribe_each var_id subs_id reqs

  -- The emptiness test and the `switch`, on the requests that were popped.
  unfoldable pub answer_subscriptions :
      SubscriptionStatus → VariableId → ℕ → List (SubscriptionRequest H) → Step H U B (Unit {0})
  unfolding refuse_each subscribe_each
  answer_subscriptions st var_id subs_id [] =
      throw (unexpected_message_error MessageType.subscription_rep)
  answer_subscriptions st var_id subs_id (req ∷ reqs) =
      if st == no_such_var
      then refuse_each var_id (req ∷ reqs)
      else if st == subscribed
      then subscribe_each var_id subs_id (req ∷ reqs)
      else throw (unexpected_message_error MessageType.subscription_req)

  unfoldable pub on_subscription_reply_received :
      SubscriptionStatus → List ℕ → List ℕ → ℕ → Step H U B (Unit {0})
  unfolding answer_subscriptions
  on_subscription_reply_received st var_grp var_name subs_id c =
      let var_id = variable_id env.to_lower_copy var_grp var_name in
      let (subs, pool) = pop_subscription_requests var_id c.request_pool in
      answer_subscriptions st var_id subs_id subs (record c { request_pool = pool })

  unfoldable pub finish_each : Answer → List UnsubscriptionRequest → Step H U B (Unit {0})
  finish_each a [] = return tt
  finish_each a (req ∷ reqs) = do set_answer env req.promise a; finish_each a reqs

  unfoldable pub answer_unsubscriptions :
      SubscriptionStatus → ℕ → List UnsubscriptionRequest → Step H U B (Unit {0})
  unfolding finish_each
  answer_unsubscriptions st subs_id [] =
      throw (unexpected_message_error MessageType.unsubscription_rep)
  answer_unsubscriptions st subs_id (req ∷ reqs) =
      if st == no_such_subscription
      then finish_each (failed (raised (no_such_subscription_error subs_id))) (req ∷ reqs)
      else if st == unsubscribed
      then finish_each finished (req ∷ reqs)
      else throw (unexpected_message_error MessageType.unsubscription_rep)

  unfoldable pub on_unsubscription_reply_received : SubscriptionStatus → ℕ → Step H U B (Unit {0})
  unfolding answer_unsubscriptions
  on_unsubscription_reply_received st subs_id c =
      let (unsubs, pool) = pop_unsubscription_requests subs_id c.request_pool in
      answer_unsubscriptions st subs_id unsubs (record c { request_pool = pool })

  unfoldable pub on_variable_update_received : ℕ → VariableValue → Step H U B (Unit {0})
  unfolding on_error
  on_variable_update_received subs_id var_value c =
      let (o, u) = invoke_handlers call subs_id var_value c.db c.user in
      catching (raise raised_by_db o, record c { user = u })
        (λ e. if is_no_such_element e then some (on_error env e false) else none)

  -- The handler of a message, or the exception where there is none.
  unfoldable pub handle_message : Message → Step H U B (Unit {0})
  unfolding on_subscription_reply_received on_unsubscription_reply_received
      on_variable_update_received
  handle_message (subscription_reply_message st grp name subs_id _) =
      on_subscription_reply_received st grp name subs_id
  handle_message (unsubscription_reply_message st subs_id _) =
      on_unsubscription_reply_received st subs_id
  handle_message (var_update_message subs_id var_value) =
      on_variable_update_received subs_id var_value
  handle_message msg = throw (unexpected_message_error (get_message_type msg))
