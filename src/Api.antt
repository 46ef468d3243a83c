-- ===== src/Api.antt =====
-- The client library: include/gpib/ib.h and src/gpibapi/ib.c.
pub mod Codes
pub mod State
pub mod Requests
pub mod Calls
pub mod Transfers
pub mod Session
pub mod Table
pub mod Errors
pub mod Reads
pub mod Unchanged
pub mod Proper
pub mod Reports
pub mod Tests
