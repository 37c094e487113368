-- ===== src/Client/Requests.antt =====
-- The requests of flightvars/include/flightvars/client/requests.h and their pool. The promise of a request is a number; what
-- the promises have been given is a map, in which those are missing that still wait. A list that has been
-- moved from is empty.
use open_airbus_cockpit.Prelude.{
  ℕ, List, [], ◌∷◌, ◌++◌, Option, none, some, Outcome, ok, throws, Action, and_then, ◌>>◌, return,
  throw,
}
use open_airbus_cockpit.Prelude.Maps.{Map, find, assign, same_number}
use open_airbus_cockpit.Var.Types.{VariableId, same_variable}
use open_airbus_cockpit.Var.Value.{VariableValue}
use open_airbus_cockpit.Client.Exceptions.{
  ClientException, request_timeout_error, promise_already_satisfied,
}

-- What a promise is given: a subscription identifier, or nothing where the request has no result, or an exception.
pub data Answer : Type 0 where
  result : ℕ → Answer
  finished : Answer
  failed : ClientException → Answer

abbrev pub Answers : Type 0
Answers = Map ℕ Answer

-- `set_result` and `set_error`.
unfoldable pub answer : ℕ → Answer → Action ClientException Answers (Unit {0})
answer promise a answers = elim (find promise answers) [
  | some _ ↦ throw promise_already_satisfied answers
  | none ↦ return tt (assign promise a answers)
]

-- `get_result` at the end of its wait.
unfoldable pub get_result : ℕ → Answers → Outcome ClientException Answer
get_result promise answers = elim (find promise answers) [
  | none ↦ throws request_timeout_error
  | some a ↦ elim a [ result id ↦ ok (result id) | finished ↦ ok finished | failed e ↦ throws e ]
]

pub record SubscriptionRequest (H : Type 0) : Type 0 where
  pub promise : ℕ
  pub var_id : VariableId
  pub handler : H

pub record UnsubscriptionRequest : Type 0 where
  pub promise : ℕ
  pub master_subs_id : ℕ
  pub virtual_subs_id : ℕ

abbrev pub update_master_subs_id : ℕ → UnsubscriptionRequest → UnsubscriptionRequest
update_master_subs_id id req = record req { master_subs_id = id }

pub record VariableUpdateRequest : Type 0 where
  pub promise : ℕ
  pub virtual_subs_id : ℕ
  pub var_value : VariableValue

pub record RequestPool (H : Type 0) : Type 0 where
  pub subs_reqs : Map VariableId (List (SubscriptionRequest H))
  pub unsubs_reqs : Map ℕ (List UnsubscriptionRequest)

-- `map[key]`, which is empty where it is new.
unfoldable pub listed : {A : Type 0} → Option (List A) → List A
listed none = []
listed (some l) = l

module _ {H : Type 0} where
  unfoldable pub insert_subscription : SubscriptionRequest H → RequestPool H → RequestPool H
  unfolding listed
  insert_subscription req pool = record pool {
    subs_reqs =
        assign req.var_id (listed (find req.var_id pool.subs_reqs) ++ (req ∷ [])) pool.subs_reqs;
  }

  unfoldable pub pop_subscription_requests :
      VariableId → RequestPool H → List (SubscriptionRequest H) × RequestPool H
  unfolding listed
  pop_subscription_requests var_id pool = (
    listed (find var_id pool.subs_reqs),
    record pool { subs_reqs = assign var_id [] pool.subs_reqs },
  )

  unfoldable pub insert_unsubscription : UnsubscriptionRequest → RequestPool H → RequestPool H
  unfolding listed
  insert_unsubscription req pool = record pool {
    unsubs_reqs =
        assign req.master_subs_id (listed (find req.master_subs_id pool.unsubs_reqs) ++ (req ∷ []))
          pool.unsubs_reqs;
  }

  unfoldable pub pop_unsubscription_requests :
      ℕ → RequestPool H → List UnsubscriptionRequest × RequestPool H
  unfolding listed
  pop_unsubscription_requests subs_id pool = (
    listed (find subs_id pool.unsubs_reqs),
    record pool { unsubs_reqs = assign subs_id [] pool.unsubs_reqs },
  )

-- The loops of `propagate_error`, in the order of the maps.
unfoldable pub fail_each :
    {R : Type 0} → (R → ℕ) → ClientException → List R → Action ClientException Answers (Unit {0})
unfolding answer
fail_each promise e [] = return tt
fail_each promise e (req ∷ reqs) = answer (promise req) (failed e) >> fail_each promise e reqs

unfoldable pub fail_all :
    {K R : Type 0}
    → (R → ℕ)
    → ClientException
    → Map K (List R)
    → Action ClientException Answers (Unit {0})
unfolding fail_each
fail_all promise e [] = return tt
fail_all promise e ((_, reqs) ∷ m) = fail_each promise e reqs >> fail_all promise e m

-- Where a promise cannot be given the error, the rest is left as it is.
unfoldable pub propagate_error :
    {H : Type 0} → ClientException → Action ClientException (RequestPool H × Answers) (Unit {0})
unfolding fail_all
propagate_error e (pool, answers) =
    let (o, answers1) = fail_all (λ req. req.promise) e pool.subs_reqs answers in
    and_then (o, (pool, answers1))
      λ _ (pool1, rest1).
        let pool2 = record pool1 { subs_reqs = [] } in
        let (o', answers2) = fail_all (λ req. req.promise) e pool2.unsubs_reqs rest1 in
        and_then (o', (pool2, answers2))
          λ _ (pool3, rest2). return tt (record pool3 { unsubs_reqs = [] }, rest2)
