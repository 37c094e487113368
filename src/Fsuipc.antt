-- ===== src/Fsuipc.antt =====
-- The master that provides the offsets of FSUIPC as variables: liboac/include/liboac/fsuipc,
-- liboac/src/fsuipc/client.cpp, flightvars/src/module/fsuipc.h and fsuipc.cpp.
pub mod Offset
pub mod Client
pub mod DummyAdapter
pub mod UpdateObserver
pub mod OffsetDb
pub mod Names
pub mod Master
