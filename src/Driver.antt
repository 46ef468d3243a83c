-- ===== src/Driver.antt =====
-- The Windows CE stream driver: src/gpib/drv_ce.c.
pub mod State
pub mod Ready
pub mod Ioctls
pub mod Dispatch
pub mod Answers
pub mod Safety
pub mod Served
pub mod Traced
pub mod Config
pub mod Window
pub mod Stream
pub mod Accepts
pub mod Lifecycle
mod Tests
