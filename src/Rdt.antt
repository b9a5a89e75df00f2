-- ===== src/Rdt.antt =====
-- The reliable transfer over UDP of mp2/src.
pub mod Constants
pub mod Cwnd
pub mod Timer
pub mod Sender
pub mod Receiver
pub mod Transfer
mod Tests
