-- ===== src/Firmware.antt =====
-- The firmware libraries of the panels, in arduino/libraries.
pub mod Button
pub mod RotarySwitch
pub mod Keypad
