-- ===== src/Serial.antt =====
-- The serial extension module, p1150_driver/mpserial/mp_serial_ext.c: the ring between its threads,
-- the threads' work, the port and the object that Python sees.
pub mod State
pub mod Ring
pub mod Queue
pub mod Decode
pub mod Cpu
pub mod Priority
pub mod Reader
pub mod Deliver
pub mod ReaderThread
pub mod EndToEnd
pub mod Threads
pub mod DeliverThread
pub mod Writer
pub mod Port
pub mod WinPort
pub mod WinThread
pub mod Manager
pub mod WinManager
