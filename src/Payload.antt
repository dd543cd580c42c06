-- ===== src/Payload.antt =====
-- The payload builders of components/hacan: `create` checks the fields and `encode` lays them out.
-- Each class is a module of its own, after the source's file.
pub mod Value
pub mod State
pub mod Event
pub mod Command
pub mod Ack
pub mod Request
pub mod Heartbeat
pub mod EntityClaim
pub mod EntityResolve
pub mod Accepted
