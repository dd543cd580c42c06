-- ===== src/Runtime.antt =====
-- components/hacan/protocol_node_runtime.h and .cpp: the node runtime.
pub mod Env
pub mod Node
pub mod Queue
pub mod Uid
pub mod Registry
pub mod Directory
pub mod Transmit
pub mod Send
pub mod Publish
pub mod Settled
pub mod Fits
pub mod Sound
pub mod Duplicates
pub mod Handle
pub mod Tick
pub mod Reachable
pub mod Allocated
