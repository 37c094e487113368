-- ===== src/Client/Texts.antt =====
-- The text that `connection_manager` of flightvars/src/lib/client/connection_manager.cpp sends, as ASCII codes.
use open_airbus_cockpit.Prelude.{ℕ, List, [], ◌∷◌}

-- Client disconnected
abbrev pub client_disconnected : List ℕ
client_disconnected =
    67 ∷ 108 ∷ 105 ∷ 101 ∷ 110 ∷ 116 ∷ 32 ∷ 100 ∷ 105 ∷ 115 ∷ 99 ∷ 111 ∷ 110 ∷ 110 ∷ 101 ∷ 99 ∷ 116
    ∷ 101 ∷ 100 ∷ []
