-- ===== src/Controller.antt =====
-- The IEEE 488 sequences of the controller, src/gpib/gpib488.c with include/gpib/gpib488.h.
pub mod Bytes
pub mod Ops
pub mod Bus
pub mod Delivers
pub mod Emits
pub mod Messages
pub mod Poll
pub mod Commands
pub mod Tests
pub mod Session
pub mod Traffic
pub mod Addressing
