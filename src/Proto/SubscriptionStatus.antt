-- ===== src/Proto/SubscriptionStatus.antt =====
-- `subscription_status` of flightvars/include/flightvars/proto.
use open_airbus_cockpit.Prelude.{ℕ}

-- `enum class subscription_status`, likewise cast from any byte.
abbrev pub SubscriptionStatus : Type 0
SubscriptionStatus = ℕ

abbrev pub subscribed : ℕ
subscribed = 0

abbrev pub unsubscribed : ℕ
unsubscribed = 1

abbrev pub no_such_var : ℕ
no_such_var = 2

abbrev pub no_such_subscription : ℕ
no_such_subscription = 3

abbrev pub var_already_subscribed : ℕ
var_already_subscribed = 4

abbrev pub unknown : ℕ
unknown = 5
