-- ===== src/Cis.antt =====
-- src/gpib/cis.c: the walk over the card information structure.
pub mod Walk
pub mod Raw
pub mod Captured
mod Tests
