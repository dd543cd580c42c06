-- ===== src/Payload/Accepted.antt =====
-- What the builders accept, the frame codec accepts.
use esphome_hacan.Base.{
  ℕ, ◌≡◌, ◌<◌, ◌≤◌, ◌%◌, ◌/◌, ◌^◌, true, false, ◌↔◌, some, arith, or_fields_low, Bytes8,
}
use esphome_hacan.Types.{MessageKind}
use esphome_hacan.TypedValue.{TypedValue}
use esphome_hacan.WirePayload.{valid_bytes}
use esphome_hacan.Payload.State
use esphome_hacan.Payload.State.{StatePayload}
use esphome_hacan.Payload.Event
use esphome_hacan.Payload.Event.{EventPayload}
use esphome_hacan.Payload.Command
use esphome_hacan.Payload.Command.{CommandPayload}
use esphome_hacan.Payload.Ack
use esphome_hacan.Payload.Ack.{AckPayload}
use esphome_hacan.Payload.Request
use esphome_hacan.Payload.Request.{RequestPayload, get_state}
use esphome_hacan.Payload.Heartbeat
use esphome_hacan.Payload.Heartbeat.{HeartbeatPayload}
use esphome_hacan.Payload.EntityClaim
use esphome_hacan.Payload.EntityClaim.{EntityClaimPayload}
use esphome_hacan.Payload.EntityResolve
use esphome_hacan.Payload.EntityResolve.{EntityResolvePayload}

-- A state, event or command payload that `create` makes for an 8-bit endpoint passes the codec.
pub State_accepted :
    (sequence endpoint : ℕ) (value : TypedValue) (quality : ℕ) {p : StatePayload}
    → endpoint < 256
    → State.create sequence endpoint value quality ≡ some p
    → valid_bytes MessageKind.state (State.encode p) ≡ true
unfolding State.create State.encode valid_bytes
State_accepted sequence endpoint value quality h e = ground (arith)

pub Event_accepted :
    (sequence endpoint : ℕ) (value : TypedValue) (flags : ℕ) {p : EventPayload}
    → endpoint < 256
    → Event.create sequence endpoint value flags ≡ some p
    → valid_bytes MessageKind.event (Event.encode p) ≡ true
unfolding Event.create Event.encode valid_bytes
Event_accepted sequence endpoint value flags h e = ground (arith)

pub Heartbeat_accepted :
    (sequence condition boot_token load : ℕ) {p : HeartbeatPayload}
    → boot_token < 2 ^ 32
    → Heartbeat.create sequence condition boot_token load ≡ some p
    → valid_bytes MessageKind.heartbeat (Heartbeat.encode p) ≡ true
unfolding Heartbeat.create Heartbeat.encode valid_bytes
Heartbeat_accepted sequence condition boot_token load h e = ground (arith)

pub Command_accepted :
    (transaction endpoint : ℕ) (value : TypedValue) (flags : ℕ) {p : CommandPayload}
    → endpoint < 256
    → Command.create transaction endpoint value flags ≡ some p
    → valid_bytes MessageKind.command (Command.encode p) ≡ true
unfolding Command.create Command.encode valid_bytes
Command_accepted transaction endpoint value flags h e = ground arith

pub EntityClaim_accepted :
    (sequence endpoint entity : ℕ) {p : EntityClaimPayload}
    → endpoint < 256
    → entity < 2 ^ 32
    → EntityClaim.create sequence endpoint entity ≡ some p
    → valid_bytes MessageKind.entity_claim (EntityClaim.encode p) ≡ true
unfolding EntityClaim.create EntityClaim.encode valid_bytes
EntityClaim_accepted sequence endpoint entity h k e = ground arith

pub EntityResolve_accepted :
    (transaction entity window_ms : ℕ) {p : EntityResolvePayload}
    → entity < 2 ^ 32
    → window_ms < 2 ^ 16
    → EntityResolve.create transaction entity window_ms ≡ some p
    → valid_bytes MessageKind.entity_resolve (EntityResolve.encode p) ≡ true
unfolding EntityResolve.create EntityResolve.encode valid_bytes
EntityResolve_accepted transaction entity window_ms h k e =
    ground (arith, or_fields_low 8 (window_ms % 2 ^ 8) (window_ms / 2 ^ 8))

-- An acknowledgement fails the codec's check exactly when its original kind has no enumerator.
pub Ack_rejected_iff :
    (transaction endpoint original_kind status detail : ℕ) {p : AckPayload}
    → Ack.create transaction endpoint original_kind status detail ≡ some p
    → (valid_bytes MessageKind.ack (Ack.encode p) ≡ false) ↔ (0x15 < original_kind)
unfolding Ack.create Ack.encode valid_bytes
Ack_rejected_iff transaction endpoint original_kind status detail e = ground arith

-- A request that `create` made fails the codec's check exactly when it asks for the state of
-- endpoint zero: `create` has no check of the endpoint for that operation.
pub Request_rejected_iff :
    (transaction endpoint operation argument : ℕ) {p : RequestPayload}
    → endpoint < 256
    → Request.create transaction endpoint operation argument ≡ some p
    → (valid_bytes MessageKind.request (Request.encode p) ≡ false)
      ↔ ((operation ≡ get_state) × (endpoint ≡ 0))
unfolding Request.create Request.encode valid_bytes
Request_rejected_iff transaction endpoint operation argument h e = ground arith

-- The bytes of a payload of the kind that one of the eight builders made, from fields that fit the
-- types of its arguments. An acknowledgement is for a kind that has an enumerator, and a request for
-- a state names an endpoint.
pub data Built : MessageKind → Bytes8 → Type 0 where
  state_built :
      (sequence endpoint : ℕ) (value : TypedValue) (quality : ℕ) {p : StatePayload}
      → endpoint < 256
      → State.create sequence endpoint value quality ≡ some p
      → Built MessageKind.state (State.encode p)
  event_built :
      (sequence endpoint : ℕ) (value : TypedValue) (flags : ℕ) {p : EventPayload}
      → endpoint < 256
      → Event.create sequence endpoint value flags ≡ some p
      → Built MessageKind.event (Event.encode p)
  command_built :
      (transaction endpoint : ℕ) (value : TypedValue) (flags : ℕ) {p : CommandPayload}
      → endpoint < 256
      → Command.create transaction endpoint value flags ≡ some p
      → Built MessageKind.command (Command.encode p)
  heartbeat_built :
      (sequence condition boot_token load : ℕ) {p : HeartbeatPayload}
      → boot_token < 2 ^ 32
      → Heartbeat.create sequence condition boot_token load ≡ some p
      → Built MessageKind.heartbeat (Heartbeat.encode p)
  entity_claim_built :
      (sequence endpoint entity : ℕ) {p : EntityClaimPayload}
      → endpoint < 256
      → entity < 2 ^ 32
      → EntityClaim.create sequence endpoint entity ≡ some p
      → Built MessageKind.entity_claim (EntityClaim.encode p)
  entity_resolve_built :
      (transaction entity window_ms : ℕ) {p : EntityResolvePayload}
      → entity < 2 ^ 32
      → window_ms < 2 ^ 16
      → EntityResolve.create transaction entity window_ms ≡ some p
      → Built MessageKind.entity_resolve (EntityResolve.encode p)
  ack_built :
      (transaction endpoint original_kind status detail : ℕ) {p : AckPayload}
      → original_kind ≤ 0x15
      → Ack.create transaction endpoint original_kind status detail ≡ some p
      → Built MessageKind.ack (Ack.encode p)
  request_built :
      (transaction endpoint operation argument : ℕ) {p : RequestPayload}
      → endpoint < 256
      → 0 < endpoint
      → Request.create transaction endpoint operation argument ≡ some p
      → Built MessageKind.request (Request.encode p)

-- What the builders make, the check of the codec accepts.
pub Built-accepted :
    (kind : MessageKind) (bytes : Bytes8) → Built kind bytes → valid_bytes kind bytes ≡ true
Built-accepted _ _ (state_built sequence endpoint value quality h e) =
    State_accepted sequence endpoint value quality h e
Built-accepted _ _ (event_built sequence endpoint value flags h e) =
    Event_accepted sequence endpoint value flags h e
Built-accepted _ _ (command_built transaction endpoint value flags h e) =
    Command_accepted transaction endpoint value flags h e
Built-accepted _ _ (heartbeat_built sequence condition boot_token load h e) =
    Heartbeat_accepted sequence condition boot_token load h e
Built-accepted _ _ (entity_claim_built sequence endpoint entity h k e) =
    EntityClaim_accepted sequence endpoint entity h k e
Built-accepted _ _ (entity_resolve_built transaction entity window_ms h k e) =
    EntityResolve_accepted transaction entity window_ms h k e
Built-accepted _ _ (ack_built transaction endpoint original_kind status detail {p} h e) =
    ground (arith, Ack_rejected_iff transaction endpoint original_kind status detail e)
Built-accepted _ _ (request_built transaction endpoint operation argument {p} h k e) =
    ground (arith, Request_rejected_iff transaction endpoint operation argument h e)
