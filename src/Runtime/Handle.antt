-- ===== src/Runtime/Handle.antt =====
-- `NodeRuntime::receive` and `handle`: one received frame. Each branch of `handle` is a function.
pub mod Conflict
pub mod AtMostOnce
pub mod StaleRecords
pub mod Commission
pub mod Ignored
pub mod Interleaved
pub mod Forgotten
pub mod Branches
pub mod Fits
pub mod Keeps
pub mod Retried
use esphome_hacan.Base.{
  ℕ, Bool, true, false, not, ◌&&◌, ◌||◌, Option, none, some, List, [], ◌∷◌, ◌==◌, if◌then◌else◌,
  Bytes8, ok, err, bit_and, bit_or, u16, ◌<<<◌,
}
use esphome_hacan.Types.{MessageKind, kind_code, Status}
use esphome_hacan.TypedValue.{TypedValue}
use esphome_hacan.FrameCodec.{RawCanFrame, ProtocolFrame, decode}
use esphome_hacan.Runtime.Env.{Env, Reaction, address_conflict}
use esphome_hacan.Runtime.Uid.{uid_at_0, same_uid, lower_uid, u32_le}
use esphome_hacan.Runtime.Node.{Node, Sys, CommissioningRole, EntityLocation, store}
use esphome_hacan.Runtime.Registry.{endpoint_handler}
use esphome_hacan.Runtime.Directory.{entity_for, learn_entity, withdraw_address}
use esphome_hacan.Runtime.Send.{
  send_address_conflict, send_entity_claim, schedule_discovery_response, acknowledge, assign,
}
use esphome_hacan.Runtime.Publish.{publish}
use esphome_hacan.Runtime.Duplicates.{is_duplicate, set_duplicate_status}

abbrev pub has_kind : MessageKind → ProtocolFrame → Bool
has_kind kind frame = frame.identifier.kind == kind_code kind

-- `address_ && address == address_->value()`
abbrev pub is_own : ℕ → Node → Bool
is_own address n = elim n.address [ none ↦ false | some own ↦ address == own ]

abbrev pub has_address : Node → Bool
has_address n = elim n.address [ none ↦ false | some own ↦ true ]

-- Bytes 2 and 4 to 7 of a state, event or command.
abbrev pub typed_value : Bytes8 → TypedValue
typed_value b = record {
  type = b.b2;
  bytes = record { v0 = b.b4; v1 = b.b5; v2 = b.b6; v3 = b.b7 };
}

-- The first statement of `handle`.
unfoldable pub note_source : ℕ → ℕ → Node → Node
note_source source now n =
    if source == 0
    then n
    else record n { seen = store source true n.seen; last_seen = store source now n.last_seen }

unfoldable pub handle_entity_resolve_from : ℕ → List (Option EntityLocation) → Node → Node
handle_entity_resolve_from entity [] n = n
handle_entity_resolve_from entity (none ∷ slots) n = handle_entity_resolve_from entity slots n
handle_entity_resolve_from entity (some owned ∷ slots) n =
    handle_entity_resolve_from entity slots
      (if owned.entity == entity then send_entity_claim entity owned.endpoint n else n)

unfoldable pub handle_entity_resolve : Bytes8 → Node → Node
handle_entity_resolve bytes n =
    handle_entity_resolve_from (u32_le bytes.b2 bytes.b3 bytes.b4 bytes.b5) n.owned_entities n

-- Bits 0 to 8 of bytes 6 and 7.
unfoldable pub assigned_address : Bytes8 → ℕ
assigned_address b = u16 (bit_or b.b6 (bit_and b.b7 1 <<< 8))

unfoldable pub take_address : ℕ → ℕ → Node → Node
take_address assigned now n = record n {
  address = some assigned;
  allocated = store assigned true n.allocated;
  claims_sent = 0;
  claim_schedule_initialized = false;
  owned_claim_index = 0;
  observed_resolve_index = 0;
  next_claim_ms = now;
}

module _ {W : Type 0} (env : Env W) where
  -- `if (events_) events_->address_conflict(*address_); withdraw_address();`
  unfoldable pub lose_address : Sys W → Sys W
  lose_address s = elim s.node.address [
    | none ↦ s
    | some address ↦ record {
      node = withdraw_address s.node;
      world = address_conflict env address s.world;
    }
  ]

  unfoldable pub handle_address_claim : ℕ → Bytes8 → Sys W → Sys W
  handle_address_claim source bytes s =
      let n : Node = record (s.node) { allocated = store source true s.node.allocated } in
      let s' : Sys W = record s { node = n } in
      let claimant = uid_at_0 bytes in
      if is_own source n && not (same_uid claimant n.uid)
      then (if lower_uid n.uid claimant
          then record s' { node = send_address_conflict n.uid n }
          else lose_address s')
      else s'

  -- Only called for the own address.
  unfoldable pub handle_address_conflict : Bytes8 → Sys W → Sys W
  handle_address_conflict bytes s =
      if lower_uid (uid_at_0 bytes) s.node.uid then lose_address s else s

  unfoldable pub handle_address_assign : Bytes8 → ℕ → Sys W → Sys W
  handle_address_assign bytes now s =
      if same_uid (uid_at_0 bytes) s.node.uid
      then (let assigned = assigned_address bytes in
          let (w, saved) = env.save assigned s.world in
          record { node = if saved then take_address assigned now s.node else s.node; world = w })
      else s

  -- A reaction of a handler or listener: its world, then its publications.
  unfoldable pub react : Reaction W → Sys W → Sys W
  react r s = record { node = publish r.publications s.node; world = r.world }

  unfoldable pub notify_state_listeners : ℕ → TypedValue → ℕ → List (Option ℕ) → Sys W → Sys W
  notify_state_listeners entity value quality [] s = s
  notify_state_listeners entity value quality (none ∷ slots) s =
      notify_state_listeners entity value quality slots s
  notify_state_listeners entity value quality (some listener ∷ slots) s =
      notify_state_listeners entity value quality slots (
        if env.state_entity listener == entity
        then react (env.state listener value quality s.world) s
        else s)

  unfoldable pub handle_state : ℕ → Bytes8 → Sys W → Sys W
  handle_state source bytes s = elim (entity_for source bytes.b1 s.node) [
    | none ↦ s
    | some entity ↦
        notify_state_listeners entity (typed_value bytes) bytes.b3 s.node.state_listeners s
  ]

  unfoldable pub notify_event_listeners : ℕ → TypedValue → ℕ → List (Option ℕ) → Sys W → Sys W
  notify_event_listeners entity value flags [] s = s
  notify_event_listeners entity value flags (none ∷ slots) s =
      notify_event_listeners entity value flags slots s
  notify_event_listeners entity value flags (some listener ∷ slots) s =
      notify_event_listeners entity value flags slots (
        if env.event_entity listener == entity
        then react (env.event listener value flags s.world) s
        else s)

  unfoldable pub handle_event : ProtocolFrame → Sys W → Sys W
  handle_event frame s =
      let bytes = frame.payload.bytes in
      let notified : Sys W = elim (entity_for frame.identifier.source bytes.b1 s.node) [
        | none ↦ s
        | some entity ↦
            notify_event_listeners entity (typed_value bytes) bytes.b3 s.node.event_listeners s
      ] in
      if is_own frame.identifier.destination notified.node && not (bit_and bytes.b3 1 == 0)
      then record notified { node = acknowledge frame Status.accepted notified.node }
      else notified

  -- The command is passed to the endpoint's handler, if it has one; the status and the state after.
  unfoldable pub execute : Bytes8 → Sys W → Status × Sys W
  execute bytes s = elim (endpoint_handler env bytes.b1 s.node) [
    | none ↦ (Status.unsupported, s)
    | some handler ↦
        let (status, reaction) = env.command handler (typed_value bytes) s.world in
        (status, react reaction s)
  ]

  -- A command that is no duplicate runs, and its status is recorded.
  unfoldable pub run_command : ProtocolFrame → ℕ → Sys W → Status × Sys W
  run_command frame now s =
      let (n, earlier) = is_duplicate frame now s.node in
      elim earlier [
        | some status ↦ (status, record s { node = n })
        | none ↦
            let (status, s') = execute frame.payload.bytes (record s { node = n }) in
            (status, record s' { node = set_duplicate_status frame status s'.node })
      ]

  -- Only called for the own address.
  unfoldable pub handle_command : ProtocolFrame → ℕ → Sys W → Sys W
  handle_command frame now s =
      let (status, s') = run_command frame now s in
      if not (bit_and frame.payload.bytes.b3 1 == 0)
      then record s' { node = acknowledge frame status s'.node }
      else s'

  abbrev pub is_primary : CommissioningRole → Bool
  is_primary CommissioningRole.primary = true
  is_primary _ = false

  -- What stands below the last `return` in a branch.
  unfoldable pub handle_discovery_response : ProtocolFrame → Sys W → Sys W
  handle_discovery_response frame s =
      let id = frame.identifier in
      if not (has_kind MessageKind.discovery_response frame)
        || not (is_primary s.node.role)
        || not (has_address s.node)
      then s
      else if not (is_own id.destination s.node) && not (id.source == 0 && id.destination == 0)
      then s
      else assign env frame.payload.bytes s

  -- `std::get` finds the alternative that the frame's kind names: `decode` made the frame.
  unfoldable pub handle : ProtocolFrame → ℕ → Sys W → Sys W
  handle frame now s0 =
      let id = frame.identifier in
      let bytes = frame.payload.bytes in
      let s : Sys W = record s0 { node = note_source id.source now s0.node } in
      let n = s.node in
      if has_kind MessageKind.address_claim frame
      then handle_address_claim id.source bytes s
      else if has_kind MessageKind.discovery_request frame
      then record s { node = schedule_discovery_response bytes id.source now n }
      else if has_kind MessageKind.address_conflict frame && is_own id.destination n
      then handle_address_conflict bytes s
      else if has_kind MessageKind.address_assign frame
      then handle_address_assign bytes now s
      else if has_kind MessageKind.entity_claim frame
      then learn_entity env id.source bytes s
      else if has_kind MessageKind.entity_resolve frame && has_address n
      then record s { node = handle_entity_resolve bytes n }
      else if has_kind MessageKind.state frame
      then handle_state id.source bytes s
      else if has_kind MessageKind.event frame
          && (id.destination == 0x1ff || is_own id.destination n)
      then handle_event frame s
      else if has_kind MessageKind.command frame && is_own id.destination n
      then handle_command frame now s
      else handle_discovery_response frame s

  unfoldable pub receive : RawCanFrame → ℕ → Sys W → Sys W
  receive raw now s = elim (decode raw) [ err e ↦ s | ok frame ↦ handle frame now s ]
