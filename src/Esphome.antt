-- ===== src/Esphome.antt =====
-- components/hacan/hacan.h and .cpp, event_source_binding.h and .cpp, switch/, light/ and
-- binary_sensor/: the ESPHome components around the node runtime.
pub mod EventSource
pub mod Framework
pub mod Switch
pub mod Light
pub mod BinarySensor
pub mod Board
pub mod Component
pub mod System
pub mod Log
