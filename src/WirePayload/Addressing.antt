-- ===== src/WirePayload/Addressing.antt =====
-- Who may send each message kind, and to whom, as the protocol's documents put it.
use esphome_hacan.Base.{ℕ, ◌≡◌, ◌≢◌, ◌↔◌, ap, true, arith}
use esphome_hacan.Types.{Priority, priority_code, priority_of_code, MessageKind}
use esphome_hacan.CanIdentifier.{CanIdentifier}
use esphome_hacan.CanIdentifier.RoundTrip.{priority_of_code-priority_code}
use esphome_hacan.WirePayload.{priority, valid_identifier, broadcast_address}

-- `to_node`: from an assigned node to one node. `to_all`: from an assigned node to everybody.
-- `to_any`: from an assigned node to either. `search`: to everybody, also from a node without an
-- address. `reply`: to one node, both possibly without an address.
pub data Scope : Type 0 where
  to_node to_all to_any search_all reply : Scope

abbrev pub scope : MessageKind → Scope
scope MessageKind.announce = to_all
scope MessageKind.heartbeat = to_all
scope MessageKind.discovery_request = search_all
scope MessageKind.discovery_response = reply
scope MessageKind.address_claim = to_all
scope MessageKind.address_assign = to_all
scope MessageKind.state = to_any
scope MessageKind.event = to_any
scope MessageKind.time_sync = to_all
scope MessageKind.entity_claim = to_all
scope MessageKind.entity_resolve = to_all
scope _ = to_node

abbrev pub Allows : Scope → ℕ → ℕ → Type 0
Allows to_node source destination =
    (source ≢ 0)
    × (source ≢ broadcast_address)
    × (destination ≢ 0)
    × (destination ≢ broadcast_address)
Allows to_all source destination =
    (source ≢ 0) × (source ≢ broadcast_address) × (destination ≡ broadcast_address)
Allows to_any source destination = (source ≢ 0) × (source ≢ broadcast_address) × (destination ≢ 0)
Allows search_all source destination =
    (source ≢ broadcast_address) × (destination ≡ broadcast_address)
Allows reply source destination = (source ≢ broadcast_address) × (destination ≢ broadcast_address)

priority_code-injective : (p q : Priority) → priority_code p ≡ priority_code q → p ≡ q
priority_code-injective p q e = ground (
  arith,
  ap priority_of_code e,
  priority_of_code-priority_code p,
  priority_of_code-priority_code q,
)

-- An identifier passes the check of a kind exactly when it has the kind's priority and the kind's
-- scope allows its addresses.
pub valid_identifier_iff :
    (k : MessageKind) (id : CanIdentifier)
    → (valid_identifier k id ≡ true)
      ↔ ((id.priority ≡ priority k) × Allows (scope k) id.source id.destination)
unfolding valid_identifier
valid_identifier_iff MessageKind.protocol_error id =
    ground (arith, priority_code-injective id.priority Priority.control)
valid_identifier_iff MessageKind.event id =
    ground (arith, priority_code-injective id.priority Priority.event)
valid_identifier_iff MessageKind.diagnostic_request id =
    ground (arith, priority_code-injective id.priority Priority.diagnostic)
valid_identifier_iff MessageKind.diagnostic_response id =
    ground (arith, priority_code-injective id.priority Priority.diagnostic)
valid_identifier_iff k id = ground (arith, priority_code-injective id.priority (priority k))
