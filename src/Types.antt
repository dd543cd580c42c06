-- ===== src/Types.antt =====
-- components/hacan/protocol_types.h: the enumerations of the protocol.
-- An `enum class` object holds its `std::uint8_t`, and a cast may store a value that no enumerator
-- has. The data types list the enumerators, `code` is the enumerator's value, `of_code` finds the
-- enumerator of a value. Where the source stores a value that was cast, the model stores its code.
-- `NodeAddress`, `EndpointId` and `EntityId` wrap one number each, and are that number.
use esphome_hacan.Base.{
  ℕ, zero, suc, ◌+◌, ◌≡◌, refl, Option, some, List, [], ◌∷◌, get_elem?, arith, ◌≤◌, ◌≢◌, none,
  get_elem?-ne-none,
}

pub data Priority : Type 0 where
  emergency control event state_query management diagnostic : Priority
  bulk_reserved background_reserved : Priority

pub data MessageKind : Type 0 where
  protocol_error announce heartbeat discovery_request discovery_response : MessageKind
  address_claim address_assign address_conflict state event command request : MessageKind
  response ack config_get config_set config_value diagnostic_request : MessageKind
  diagnostic_response time_sync entity_claim entity_resolve : MessageKind

pub data DataType : Type 0 where
  null bool uint8 int8 uint16 int16 uint32 int32 float32 fixed16_16 enum8 bitset32 : DataType
  invalid : DataType

pub data Status : Type 0 where
  accepted busy unsupported invalid_value denied fault conflict internal_error : Status

abbrev pub priority_code : Priority → ℕ
priority_code Priority.emergency = 0
priority_code Priority.control = 1
priority_code Priority.event = 2
priority_code Priority.state_query = 3
priority_code Priority.management = 4
priority_code Priority.diagnostic = 5
priority_code Priority.bulk_reserved = 6
priority_code Priority.background_reserved = 7

-- `static_cast<Priority>` of a value masked to three bits: each has an enumerator.
abbrev pub priority_of_code : ℕ → Priority
priority_of_code zero = Priority.emergency
priority_of_code (suc zero) = Priority.control
priority_of_code (suc (suc zero)) = Priority.event
priority_of_code (suc (suc (suc zero))) = Priority.state_query
priority_of_code (suc (suc (suc (suc zero)))) = Priority.management
priority_of_code (suc (suc (suc (suc (suc zero))))) = Priority.diagnostic
priority_of_code (suc (suc (suc (suc (suc (suc zero)))))) = Priority.bulk_reserved
priority_of_code (suc (suc (suc (suc (suc (suc (suc n))))))) = Priority.background_reserved

abbrev pub kind_code : MessageKind → ℕ
kind_code MessageKind.protocol_error = 0x00
kind_code MessageKind.announce = 0x01
kind_code MessageKind.heartbeat = 0x02
kind_code MessageKind.discovery_request = 0x03
kind_code MessageKind.discovery_response = 0x04
kind_code MessageKind.address_claim = 0x05
kind_code MessageKind.address_assign = 0x06
kind_code MessageKind.address_conflict = 0x07
kind_code MessageKind.state = 0x08
kind_code MessageKind.event = 0x09
kind_code MessageKind.command = 0x0a
kind_code MessageKind.request = 0x0b
kind_code MessageKind.response = 0x0c
kind_code MessageKind.ack = 0x0d
kind_code MessageKind.config_get = 0x0e
kind_code MessageKind.config_set = 0x0f
kind_code MessageKind.config_value = 0x10
kind_code MessageKind.diagnostic_request = 0x11
kind_code MessageKind.diagnostic_response = 0x12
kind_code MessageKind.time_sync = 0x13
kind_code MessageKind.entity_claim = 0x14
kind_code MessageKind.entity_resolve = 0x15

abbrev kinds : List MessageKind
kinds =
    MessageKind.protocol_error ∷ MessageKind.announce ∷ MessageKind.heartbeat
    ∷ MessageKind.discovery_request ∷ MessageKind.discovery_response ∷ MessageKind.address_claim
    ∷ MessageKind.address_assign ∷ MessageKind.address_conflict ∷ MessageKind.state
    ∷ MessageKind.event ∷ MessageKind.command ∷ MessageKind.request ∷ MessageKind.response
    ∷ MessageKind.ack ∷ MessageKind.config_get ∷ MessageKind.config_set ∷ MessageKind.config_value
    ∷ MessageKind.diagnostic_request ∷ MessageKind.diagnostic_response ∷ MessageKind.time_sync
    ∷ MessageKind.entity_claim ∷ MessageKind.entity_resolve ∷ []

unfoldable pub kind_of_code : ℕ → Option MessageKind
kind_of_code n = get_elem? kinds n

pub kind_of_code-kind_code : (k : MessageKind) → kind_of_code (kind_code k) ≡ some k
unfolding kind_of_code
kind_of_code-kind_code MessageKind.protocol_error = refl
kind_of_code-kind_code _ = refl

-- The enumerators stand in the order of their values, from `i` on.
abbrev StandsFrom : ℕ → List MessageKind → Type 0
StandsFrom i [] = Unit {0}
StandsFrom i (k ∷ ks) = (i ≡ kind_code k) × StandsFrom (suc i) ks

StandsFrom-get_elem? :
    (i : ℕ) (ks : List MessageKind) (n : ℕ) {k : MessageKind}
    → StandsFrom i ks
    → get_elem? ks n ≡ some k
    → i + n ≡ kind_code k
StandsFrom-get_elem? i [] n h e = cc
StandsFrom-get_elem? i (j ∷ ks) zero h e = ground arith
StandsFrom-get_elem? i (j ∷ ks) (suc n) h e = omega (arith, StandsFrom-get_elem? (suc i) ks n h.1 e)

pub kind_of_code-kind : (n : ℕ) {k : MessageKind} → kind_of_code n ≡ some k → n ≡ kind_code k
unfolding kind_of_code
kind_of_code-kind n e = omega (arith, StandsFrom-get_elem? 0 kinds n (omega arith) e)

pub kind_of_code-ne-none : (n : ℕ) → n ≤ 0x15 → kind_of_code n ≢ none
unfolding kind_of_code
kind_of_code-ne-none n h = get_elem?-ne-none kinds n (omega arith)

abbrev pub data_type_code : DataType → ℕ
data_type_code DataType.null = 0x00
data_type_code DataType.bool = 0x01
data_type_code DataType.uint8 = 0x02
data_type_code DataType.int8 = 0x03
data_type_code DataType.uint16 = 0x04
data_type_code DataType.int16 = 0x05
data_type_code DataType.uint32 = 0x06
data_type_code DataType.int32 = 0x07
data_type_code DataType.float32 = 0x08
data_type_code DataType.fixed16_16 = 0x09
data_type_code DataType.enum8 = 0x0a
data_type_code DataType.bitset32 = 0x0b
data_type_code DataType.invalid = 0xff

abbrev pub status_code : Status → ℕ
status_code Status.accepted = 0
status_code Status.busy = 1
status_code Status.unsupported = 2
status_code Status.invalid_value = 3
status_code Status.denied = 4
status_code Status.fault = 5
status_code Status.conflict = 6
status_code Status.internal_error = 7
