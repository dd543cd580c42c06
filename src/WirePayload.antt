-- ===== src/WirePayload.antt =====
-- components/hacan/protocol_wire_payload.h: the payload of each message kind and its checks.
-- The template parameter `Kind` is an argument. `PayloadVariant` of protocol_protocol_frame.h
-- holds one of the 22 instances: the kind is the alternative, the bytes its only member.
pub mod Addressing
use esphome_hacan.Base.{
  ℕ, ◌+◌, Bool, true, false, not, ◌&&◌, ◌||◌, Bytes8, ltb, leb, ◌==◌, if◌then◌else◌, ◌<<<◌, bit_and,
  bit_or,
}
use esphome_hacan.Types.{Priority, priority_code, MessageKind, kind_code}
use esphome_hacan.TypedValue.{TypedValue, is_valid}
use esphome_hacan.CanIdentifier.{CanIdentifier}

pub data FrameValidationError : Type 0 where
  none invalid_priority invalid_addressing invalid_payload : FrameValidationError

abbrev pub is : MessageKind → MessageKind → Bool
is k j = kind_code k == kind_code j

abbrev pub broadcast_address : ℕ
broadcast_address = 0x1ff

unfoldable pub is_endpoint : ℕ → Bool
is_endpoint value = ltb 0 value && ltb value 0xff

unfoldable pub is_status : ℕ → Bool
is_status value = leb value 7

unfoldable pub is_kind : ℕ → Bool
is_kind value = leb value 0x15

-- `is_nonzero_u32(bytes, 4)` and `is_nonzero_u32(bytes, 2)`, on the four bytes it reads.
unfoldable pub is_nonzero_u32 : ℕ → ℕ → ℕ → ℕ → Bool
is_nonzero_u32 a b c d = not (a == 0) || not (b == 0) || not (c == 0) || not (d == 0)

-- `u16(bytes, offset)`, on the two bytes it reads.
unfoldable pub u16_le : ℕ → ℕ → ℕ
u16_le low high = bit_or low (high <<< 8)

-- `valid_typed_value(bytes, type_offset, 4)`: every caller reads the value from byte 4.
unfoldable pub valid_typed_value : ℕ → Bytes8 → Bool
valid_typed_value type b =
    is_valid (record { type = type; bytes = record { v0 = b.b4; v1 = b.b5; v2 = b.b6; v3 = b.b7 } })

unfoldable pub priority : MessageKind → Priority
priority k =
    if is k MessageKind.protocol_error
      || is k MessageKind.address_conflict
      || is k MessageKind.command
      || is k MessageKind.ack
    then Priority.control
    else if is k MessageKind.event
    then Priority.event
    else if leb (kind_code MessageKind.state) (kind_code k)
        && leb (kind_code k) (kind_code MessageKind.response)
    then Priority.state_query
    else if is k MessageKind.diagnostic_request || is k MessageKind.diagnostic_response
    then Priority.diagnostic
    else Priority.management

abbrev pub same_priority : Priority → Priority → Bool
same_priority p q = priority_code p == priority_code q

unfoldable pub valid_identifier : MessageKind → CanIdentifier → Bool
unfolding priority
valid_identifier k id =
    let source = id.source in
    let destination = id.destination in
    let broadcast = destination == broadcast_address in
    if not (same_priority id.priority (priority k))
    then false
    else if source == broadcast_address
    then false
    else if is k MessageKind.discovery_response
    then not broadcast
    else if destination == 0
    then false
    else if is k MessageKind.discovery_request
    then broadcast
    else if source == 0
    then false
    else if is k MessageKind.protocol_error
        || is k MessageKind.address_conflict
        || is k MessageKind.command
        || is k MessageKind.request
        || is k MessageKind.response
        || is k MessageKind.ack
        || is k MessageKind.config_get
        || is k MessageKind.config_set
        || is k MessageKind.config_value
        || is k MessageKind.diagnostic_request
        || is k MessageKind.diagnostic_response
    then not broadcast
    else if is k MessageKind.state || is k MessageKind.event
    then true
    else broadcast

unfoldable pub valid_bytes : MessageKind → Bytes8 → Bool
unfolding is_endpoint is_status is_kind is_nonzero_u32 u16_le valid_typed_value
valid_bytes MessageKind.protocol_error b = is_kind b.b2 && is_status b.b3
valid_bytes MessageKind.announce b =
    b.b1 == 1 && bit_and b.b3 0xe0 == 0 && is_nonzero_u32 b.b4 b.b5 b.b6 b.b7
valid_bytes MessageKind.heartbeat b =
    bit_and b.b1 0xe0 == 0
    && is_nonzero_u32 b.b2 b.b3 b.b4 b.b5
    && (leb b.b6 100 || b.b6 == 0xff)
    && b.b7 == 0
valid_bytes MessageKind.discovery_request b =
    let window = u16_le b.b2 b.b3 in bit_and b.b1 0xf8 == 0 && leb 1000 window && leb window 10000
valid_bytes MessageKind.discovery_response b = true
valid_bytes MessageKind.address_claim b = b.b6 == 1
valid_bytes MessageKind.address_assign b =
    let address = u16_le b.b6 (bit_and b.b7 1) in
    ltb 0 address && ltb address 0x1ff && bit_and b.b7 0xfc == 0 && not (bit_and b.b7 0x02 == 0)
valid_bytes MessageKind.address_conflict b = b.b6 == 1
valid_bytes MessageKind.state b =
    is_endpoint b.b1 && bit_and b.b3 0xe0 == 0 && valid_typed_value b.b2 b
valid_bytes MessageKind.event b =
    is_endpoint b.b1 && bit_and b.b3 0xfc == 0 && valid_typed_value b.b2 b
valid_bytes MessageKind.command b =
    is_endpoint b.b1 && bit_and b.b3 0xfc == 0 && valid_typed_value b.b2 b
valid_bytes MessageKind.request b =
    if ltb b.b2 1
      || ltb 3 b.b2
      || not (b.b4 == 0)
      || not (b.b5 == 0)
      || not (b.b6 == 0)
      || not (b.b7 == 0)
    then false
    else (b.b2 == 1 && (is_endpoint b.b1 || b.b1 == 0xff))
      || (b.b2 == 2 && b.b1 == 0)
      || (b.b2 == 3 && is_endpoint b.b1)
valid_bytes MessageKind.response b = is_status b.b3
valid_bytes MessageKind.ack b = is_kind b.b2 && is_status b.b3
valid_bytes MessageKind.config_get b =
    not (b.b1 == 0xff) && b.b3 == 0 && b.b4 == 0 && b.b5 == 0 && b.b6 == 0 && b.b7 == 0
valid_bytes MessageKind.config_set b = not (b.b1 == 0xff) && valid_typed_value b.b3 b
valid_bytes MessageKind.config_value b = not (b.b1 == 0xff) && valid_typed_value b.b3 b
valid_bytes MessageKind.diagnostic_request b =
    not (b.b1 == 0xff) && b.b4 == 0 && b.b5 == 0 && b.b6 == 0 && b.b7 == 0
valid_bytes MessageKind.diagnostic_response b = not (b.b1 == 0xff) && is_status b.b4
valid_bytes MessageKind.time_sync b = leb b.b1 3 && ltb (u16_le b.b6 b.b7) 1000
valid_bytes MessageKind.entity_claim b =
    is_endpoint b.b1 && is_nonzero_u32 b.b2 b.b3 b.b4 b.b5 && b.b6 == 0 && b.b7 == 0
valid_bytes MessageKind.entity_resolve b =
    let window = u16_le b.b6 b.b7 in
    b.b1 == 0 && is_nonzero_u32 b.b2 b.b3 b.b4 b.b5 && leb 1000 window && leb window 10000

-- One alternative of `PayloadVariant`; `decode` and `encode` copy the bytes.
pub record WirePayload : Type 0 where
  pub kind : MessageKind
  pub bytes : Bytes8

unfoldable pub validate : WirePayload → CanIdentifier → FrameValidationError
validate p id =
    if not (id.kind == kind_code p.kind)
    then invalid_payload
    else if not (same_priority id.priority (priority p.kind))
    then invalid_priority
    else if not (valid_identifier p.kind id)
    then invalid_addressing
    else if valid_bytes p.kind p.bytes
    then none
    else invalid_payload
