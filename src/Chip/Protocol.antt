-- ===== src/Chip/Protocol.antt =====
-- The driver's access protocol: the steps that its functions are made of, as a relation between
-- worlds, the rules by which a function is shown to take only such steps, and that each does.
pub mod Steps
pub mod Rules
pub mod Ranges
pub mod Access
pub mod Control
pub mod Setup
pub mod Transfer
pub mod Calls
