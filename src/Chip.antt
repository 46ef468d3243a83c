-- ===== src/Chip.antt =====
-- The TNT4882C chip driver, src/gpib/tnt4882.c with include/gpib/tnt4882.h: its constants, its
-- state and callbacks, its functions, and what is proved of them.
pub mod Reg
pub mod Bits
pub mod Status
pub mod Io
pub mod Access
pub mod Deadline
pub mod Setup
pub mod Control
pub mod Transfer
pub mod Protocol
pub mod Results
pub mod Calls
pub mod Spacing
pub mod Shadow
pub mod Init
pub mod Tests
