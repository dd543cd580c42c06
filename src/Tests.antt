-- ===== src/Tests.antt =====
-- Runs of the model on concrete input, and each theorem at an input that meets its hypotheses.
mod Codec
mod Payloads
mod Bus
mod Nodes
mod Retries
mod Tables
mod Traffic
mod Desk
mod Boards
mod Presses
pub mod System
