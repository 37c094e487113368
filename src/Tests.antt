-- ===== src/Tests.antt =====
-- Runs of the model on concrete data. No source file corresponds to these modules.
mod Words
mod Rings
mod Mappings
mod Disconnections
mod Wire
mod Routes
mod Databases
mod Servers
mod Clients
mod Offsets
mod Panels
