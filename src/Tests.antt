-- ===== src/Tests.antt =====
-- Runs of the models on concrete inputs, and the theorems at them.
mod CobsTests
mod SerialTests
mod ThreadTests
mod DeliveryTests
mod ManagerTests
mod WinManagerTests
mod LogTests
mod CborTests
mod PortTests
mod OverflowTests
mod ReferenceTests
