-- ===== src/Gateway.antt =====
-- src/gpibsrv/gpibsrv.c: a server on TCP that passes the lines of a client on to instruments.
pub mod State
pub mod Sockets
pub mod Words
pub mod Transfers
pub mod Literals
pub mod Commands
pub mod Serve
mod Tests
pub mod Lines
pub mod Preserves
pub mod Settings
pub mod Encoding
pub mod Client
pub mod Idle
pub mod Delivery
pub mod Target
pub mod Table
pub mod Descriptors
pub mod NoLeak
pub mod Service
