-- ===== src/Tests/Payloads.antt =====
-- The payload builders on concrete fields.
use esphome_hacan.Base.{ℕ, ◌≡◌, ◌↔◌, refl, true, false, some, arith}
use esphome_hacan.Types.{MessageKind}
use esphome_hacan.TypedValue.{TypedValue, is_valid}
use esphome_hacan.WirePayload.{valid_bytes}
use esphome_hacan.Payload.State
use esphome_hacan.Payload.State.{StatePayload}
use esphome_hacan.Payload.Request
use esphome_hacan.Payload.Request.{RequestPayload, get_state}
use esphome_hacan.Payload.EntityResolve
use esphome_hacan.Payload.EntityResolve.{EntityResolvePayload}
use esphome_hacan.Payload.Accepted.{Built-accepted, entity_resolve_built, Request_rejected_iff}

abbrev on_value : TypedValue
on_value = record { type = 1; bytes = record { v0 = 1; v1 = 0; v2 = 0; v3 = 0 } }

abbrev on_state : StatePayload
on_state = record { sequence = 7; endpoint = 3; value = on_value; quality = 1 }

on_state-created : State.create 7 3 on_value 1 ≡ some on_state
unfolding State.create is_valid
on_state-created = refl

abbrev lookup_entity : EntityResolvePayload
lookup_entity = record { transaction = 1; entity = 0x01010001; window_ms = 1000 }

lookup_entity-created : EntityResolve.create 1 0x01010001 1000 ≡ some lookup_entity
unfolding EntityResolve.create
lookup_entity-created = refl

Built-accepted_example :
    valid_bytes MessageKind.entity_resolve (EntityResolve.encode lookup_entity) ≡ true
Built-accepted_example =
    Built-accepted MessageKind.entity_resolve (EntityResolve.encode lookup_entity)
      (entity_resolve_built 1 0x01010001 1000 (omega arith) (omega arith) lookup_entity-created)

abbrev state_of_zero : RequestPayload
state_of_zero = record { transaction = 1; endpoint = 0; operation = 1; argument = 0 }

state_of_zero-created : Request.create 1 0 1 0 ≡ some state_of_zero
unfolding Request.create
state_of_zero-created = refl

Request_rejected_iff_example :
    (valid_bytes MessageKind.request (Request.encode state_of_zero) ≡ false)
    ↔ (◌≡◌ {A = ℕ} 1 get_state × ◌≡◌ {A = ℕ} 0 0)
Request_rejected_iff_example = Request_rejected_iff 1 0 1 0 (omega arith) state_of_zero-created
