-- ===== src/Proto.antt =====
-- The FlightVars protocol: flightvars/include/flightvars/proto.
pub mod MessageType
pub mod SubscriptionStatus
pub mod Messages
pub mod Serial
pub mod Deserial
pub mod Binary
pub mod RoundTrip
pub mod Marshall
