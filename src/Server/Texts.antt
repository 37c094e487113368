-- ===== src/Server/Texts.antt =====
-- The texts that `flight_vars_server` of flightvars/src/module/server.cpp sends, as ASCII codes.
use open_airbus_cockpit.Prelude.{ℕ, List, [], ◌∷◌}

-- FlightVars Server
abbrev pub peer_name : List ℕ
peer_name =
    70 ∷ 108 ∷ 105 ∷ 103 ∷ 104 ∷ 116 ∷ 86 ∷ 97 ∷ 114 ∷ 115 ∷ 32 ∷ 83 ∷ 101 ∷ 114 ∷ 118 ∷ 101 ∷ 114
    ∷ []

-- Variable already subscribed
abbrev pub variable_already_subscribed : List ℕ
variable_already_subscribed =
    86 ∷ 97 ∷ 114 ∷ 105 ∷ 97 ∷ 98 ∷ 108 ∷ 101 ∷ 32 ∷ 97 ∷ 108 ∷ 114 ∷ 101 ∷ 97 ∷ 100 ∷ 121 ∷ 32
    ∷ 115 ∷ 117 ∷ 98 ∷ 115 ∷ 99 ∷ 114 ∷ 105 ∷ 98 ∷ 101 ∷ 100 ∷ []

-- No such variable defined in FlightVars module; missing plugin?
abbrev pub no_such_variable : List ℕ
no_such_variable =
    78 ∷ 111 ∷ 32 ∷ 115 ∷ 117 ∷ 99 ∷ 104 ∷ 32 ∷ 118 ∷ 97 ∷ 114 ∷ 105 ∷ 97 ∷ 98 ∷ 108 ∷ 101 ∷ 32
    ∷ 100 ∷ 101 ∷ 102 ∷ 105 ∷ 110 ∷ 101 ∷ 100 ∷ 32 ∷ 105 ∷ 110 ∷ 32 ∷ 70 ∷ 108 ∷ 105 ∷ 103 ∷ 104
    ∷ 116 ∷ 86 ∷ 97 ∷ 114 ∷ 115 ∷ 32 ∷ 109 ∷ 111 ∷ 100 ∷ 117 ∷ 108 ∷ 101 ∷ 59 ∷ 32 ∷ 109 ∷ 105 ∷ 115
    ∷ 115 ∷ 105 ∷ 110 ∷ 103 ∷ 32 ∷ 112 ∷ 108 ∷ 117 ∷ 103 ∷ 105 ∷ 110 ∷ 63 ∷ []

-- No such subscription with ID %d
abbrev pub no_such_subscription_with_id : List ℕ
no_such_subscription_with_id =
    78 ∷ 111 ∷ 32 ∷ 115 ∷ 117 ∷ 99 ∷ 104 ∷ 32 ∷ 115 ∷ 117 ∷ 98 ∷ 115 ∷ 99 ∷ 114 ∷ 105 ∷ 112 ∷ 116
    ∷ 105 ∷ 111 ∷ 110 ∷ 32 ∷ 119 ∷ 105 ∷ 116 ∷ 104 ∷ 32 ∷ 73 ∷ 68 ∷ 32 ∷ 37 ∷ 100 ∷ []

-- Server error while unsubscribing from %d
abbrev pub error_while_unsubscribing : List ℕ
error_while_unsubscribing =
    83 ∷ 101 ∷ 114 ∷ 118 ∷ 101 ∷ 114 ∷ 32 ∷ 101 ∷ 114 ∷ 114 ∷ 111 ∷ 114 ∷ 32 ∷ 119 ∷ 104 ∷ 105 ∷ 108
    ∷ 101 ∷ 32 ∷ 117 ∷ 110 ∷ 115 ∷ 117 ∷ 98 ∷ 115 ∷ 99 ∷ 114 ∷ 105 ∷ 98 ∷ 105 ∷ 110 ∷ 103 ∷ 32 ∷ 102
    ∷ 114 ∷ 111 ∷ 109 ∷ 32 ∷ 37 ∷ 100 ∷ []
