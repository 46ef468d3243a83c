-- ===== src/Runtime.antt =====
-- The freestanding runtime: src/rt/crt.c and src/rt/fmt.c.
pub mod Memory
pub mod Moves
pub mod Strings
pub mod Sink
pub mod Numbers
pub mod Format
pub mod Digits
pub mod Rendered
pub mod Output
pub mod Tests
