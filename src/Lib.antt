-- ===== src/Lib.antt =====
-- HACAN for ESPHome: a home-automation protocol over Classical CAN. This library models the C++
-- code under components/hacan, the portable protocol code and the ESPHome components over it, as a
-- shallow embedding: each C++ function is a function, an object that the code changes is passed and
-- returned.
--
-- The parts and how they interact. A raw CAN frame comes in; the frame codec reads its identifier,
-- checks priority, addresses and payload and makes a protocol frame (`FrameCodec::decode`). The
-- node runtime handles it and changes its state: addresses, the entity directory, the table of
-- commands, the transmit queues. A tick sends what is due. What the runtime sends is built by the
-- payload builders and goes through `FrameCodec::encode` into one of five queues. On a board the
-- ESPHome component owns the runtime: the configuration tells it endpoints and listeners, its setup
-- registers them, the CAN bus calls it with frames, and it transmits and stores the address for the
-- runtime. Switches and lights are the runtime's handlers and listeners, and publish through it.
--
-- Which file models what (all sources under components/hacan):
--   Types          protocol_types.h
--   CanIdentifier  protocol_can_identifier.h, .cpp
--   TypedValue     protocol_typed_value.h, .cpp
--   WirePayload    protocol_wire_payload.h, and `PayloadVariant` of protocol_protocol_frame.h
--   FrameCodec     protocol_frame_codec.h, .cpp, protocol_raw_can_frame.h
--   Payload        protocol_state.cpp, protocol_event.cpp, protocol_command.cpp, protocol_ack.cpp,
--                  protocol_request.cpp, protocol_lifecycle.cpp, protocol_entities.cpp
--   Runtime        protocol_node_runtime.h, .cpp: Node is the state, Env the interfaces behind it,
--                  Queue one transmit queue, Transmit `enqueue` and `drain_one`, Registry the
--                  registrations, Directory the entities and addresses, Send the frames it builds,
--                  Publish `publish_state` and `publish_event`, Duplicates the table of commands,
--                  Handle `receive` and `handle`, Tick `tick`, Reachable the states that calls
--                  of the public operations lead to, Allocated the addresses they leave marked
--   Esphome        EventSource: event_source_binding.h, .cpp, protocol_button_event.h; Switch, Light
--                  and BinarySensor: the platforms under switch, light and binary_sensor; Component:
--                  the state of `HacanComponent` and what the configuration calls on it, hacan.h,
--                  hacan.cpp; Board: `transmit`, `load` and `save`, and the devices, as the
--                  environment of the runtime; System: `setup`, the callback of the CAN bus, `loop`,
--                  what devices publish, and `PublishEventAction`; Log: the values that `log_frame`
--                  and `dump_config` write
-- The modules below these hold the proofs. Base holds shared notation, arrays, slots and the laws
-- of bits; Tests holds runs on concrete input and the theorems at concrete input.
--
-- How code becomes definitions. Numbers are natural numbers, with the wrap-around of the unsigned
-- types written out (`u8`, `u16`, `u32`). An array of eight bytes is a record, so that no read is
-- out of range; loops over its bytes are written out. An array of optional entries or of pointers
-- is a list of slots, and the loops over it are the combinators of Base.Slots. An array with an
-- entry for each address is a function. An enumeration is a data type; where the code stores a
-- value that was cast, the model stores its code. Pointers to handlers and listeners are numbers.
-- The interfaces of the runtime are a parameter: an environment over a world of any type. A
-- handler may publish on the runtime that calls it; it ignores the results, as the handlers of
-- this repository do, so its reaction lists what it publishes.
-- ESPHome itself is a parameter, the record `Framework` over a type of what it keeps: the CAN bus,
-- the preferences, the clock, outputs, lights and sensors. A handler of a board is the number of a
-- device, an event listener the place of a binding, eight for each device. A call that ESPHome may
-- answer with automations gives what these publish and do to ESPHome's own state. Automations that
-- drive a switch, a light or a sensor of this component, the same or another one, are not modelled.
-- Loops over arrays recur on the rounds left, which the array's size bounds; there is no fuel.
--
-- Not modelled: the text of the log and what is logged besides the values above, the pointer to the
-- CAN bus and the key of the preference, the light's traits, the Python code that generates
-- configuration, and tests. ESPHome's own code is not in the repository.
mod Base
pub mod Types
pub mod TypedValue
pub mod CanIdentifier
pub mod WirePayload
pub mod FrameCodec
pub mod Payload
pub mod Runtime
pub mod Esphome
mod Tests
