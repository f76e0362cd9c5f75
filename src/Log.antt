-- ===== src/Log.antt =====
-- The log decoder, p1150_driver/logdata_c/logdatamodule.c, on a system whose `long` has 64 bits.
pub mod Object
pub mod Python
pub mod Field
pub mod Data
pub mod Symbol
pub mod Extract
pub mod Decode
pub mod Cbor
pub mod Convert
pub mod Spec
pub mod Formats
pub mod Load
pub mod References
pub mod WinClock
