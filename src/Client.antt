-- ===== src/Client.antt =====
-- flightvars/include/flightvars/client and flightvars/src/lib/client.
pub mod Exceptions
pub mod ConnectionState
pub mod SubscriptionDb
pub mod Requests
pub mod Texts
pub mod ConnectionManager
pub mod FlightVarsClient
