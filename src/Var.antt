-- ===== src/Var.antt =====
-- flightvars/include/flightvars/var.h and flightvars/src/lib/api.cpp.
pub mod Types
pub mod Value
