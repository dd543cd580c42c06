-- ===== src/Runtime/Handle/Keeps.antt =====
-- What holds of a node whatever it sends, hears of or learns, a received frame leaves true; a command
-- may touch the table of commands too.
use esphome_hacan.Base.{
  ℕ, ◌≡◌, ◌==◌, inl, inr, Bool, true, none, some, Option, List, [], ◌∷◌, arith, Bytes8,
  Option-cases, Bool-cases, find_slot, fill_slot, ◌&&◌,
}
use esphome_hacan.Types.{Status, MessageKind}
use esphome_hacan.TypedValue.{TypedValue}
use esphome_hacan.FrameCodec.{ProtocolFrame}
use esphome_hacan.Runtime.Env.{Env, Reaction}
use esphome_hacan.Runtime.Uid.{u32_le}
use esphome_hacan.Runtime.Node.{Node, Sys, EntityLocation, PendingDiscoveryResponse, store}
use esphome_hacan.Runtime.Settled.{
  settled, settled-send_address_conflict, settled-send_entity_claim, settled-acknowledge,
  settled-publish,
}
use esphome_hacan.Runtime.Directory.{learn_entity, withdraw_address, entity_for, next_free_address}
use esphome_hacan.Runtime.Send.{send_entity_claim, schedule_discovery_response, assign}
use esphome_hacan.Runtime.Handle.{
  note_source, handle_entity_resolve_from, handle_entity_resolve, take_address, lose_address,
  handle_address_claim, handle_address_conflict, handle_address_assign, react,
  notify_state_listeners, handle_state, notify_event_listeners, handle_event, handle_command,
  handle_discovery_response, handle, typed_value, has_kind, assigned_address,
}
use esphome_hacan.Runtime.Handle.Fits.{handle-branches}

-- A property of a node that sending, marking addresses, hearing of nodes and entities, and a change
-- of the own address leave alone.
pub record Keeps (P : Node → Type 0) : Type 0 where
  pub sends : (m n : Node) → settled m ≡ settled n → P n → P m
  pub hears :
      (n : Node) (seen : ℕ → Bool) (last_seen : ℕ → ℕ)
      → P n
      → P (record n { seen = seen; last_seen = last_seen })
  pub marks :
      (n : Node) (source : ℕ) → P n → P (record n { allocated = store source true n.allocated })
  pub learns :
      (n : Node) (entities : List (Option EntityLocation))
      → P n
      → P (record n { entities = entities })
  pub withdraws : (n : Node) → P n → P (withdraw_address n)
  pub takes : (n : Node) (assigned now : ℕ) → P n → P (take_address assigned now n)
  pub defers :
      (n : Node) (pending : Option PendingDiscoveryResponse)
      → P n
      → P (record n { pending_discovery_response = pending })

module _ {P : Node → Type 0} (k : Keeps P) where
  note_source-keeps : (source now : ℕ) (n : Node) → P n → P (note_source source now n)
  unfolding note_source
  note_source-keeps source now n held =
      ground (arith, held, k.hears n (store source true n.seen) (store source now n.last_seen) held)

  handle_entity_resolve_from-keeps :
      (entity : ℕ) (slots : List (Option EntityLocation)) (n : Node)
      → P n
      → P (handle_entity_resolve_from entity slots n)
  unfolding handle_entity_resolve_from
  handle_entity_resolve_from-keeps entity [] n held = held
  handle_entity_resolve_from-keeps entity (none ∷ slots) n held =
      handle_entity_resolve_from-keeps entity slots n held
  handle_entity_resolve_from-keeps entity (some owned ∷ slots) n held = ground (
    arith,
    handle_entity_resolve_from-keeps entity slots n held,
    handle_entity_resolve_from-keeps entity slots (send_entity_claim entity owned.endpoint n)
        (k.sends _ n (settled-send_entity_claim entity owned.endpoint n) held),
  )

module _ {W : Type 0} (env : Env W) {P : Node → Type 0} (k : Keeps P) where
  lose_address-keeps : (s : Sys W) → P s.node → P (lose_address env s).node
  unfolding lose_address
  lose_address-keeps s held = elim (Option-cases s.node.address) [
    | inl e ↦ simp (e, lose_address) held
    | inr (a, e) ↦ simp (e, lose_address) (k.withdraws s.node held)
  ]

  handle_address_claim-keeps :
      (source : ℕ) (bytes : Bytes8) (s : Sys W)
      → P s.node
      → P (handle_address_claim env source bytes s).node
  unfolding handle_address_claim
  handle_address_claim-keeps source bytes s held =
      let n : Node = record (s.node) { allocated = store source true s.node.allocated } in
      let marked : P n = k.marks s.node source held in
      ground (
        arith,
        marked,
        lose_address-keeps (record s { node = n }) marked,
        k.sends _ n (settled-send_address_conflict n.uid n) marked,
      )

  handle_address_conflict-keeps :
      (bytes : Bytes8) (s : Sys W) → P s.node → P (handle_address_conflict env bytes s).node
  unfolding handle_address_conflict
  handle_address_conflict-keeps bytes s held = ground (arith, lose_address-keeps s held)

  handle_address_assign-keeps :
      (bytes : Bytes8) (now : ℕ) (s : Sys W)
      → P s.node
      → P (handle_address_assign env bytes now s).node
  unfolding handle_address_assign
  handle_address_assign-keeps bytes now s held =
      ground (arith, held, k.takes s.node (assigned_address bytes) now held)

  learn_entity-keeps :
      (source : ℕ) (bytes : Bytes8) (s : Sys W)
      → P s.node
      → P (learn_entity env source bytes s).node
  unfolding learn_entity
  learn_entity-keeps source bytes s held =
      let value = u32_le bytes.b2 bytes.b3 bytes.b4 bytes.b5 in
      let location : EntityLocation = record {
        entity = value;
        node = source;
        endpoint = bytes.b1;
      } in
      let n = s.node in
      elim (Option-cases (find_slot (λ e. e.entity == value) n.entities)) [
        | inl unknown ↦ elim (Option-cases (fill_slot location n.entities)) [
          | inl full ↦ simp (unknown, full, learn_entity) held
          | inr (slots, filled) ↦ simp (unknown, filled, learn_entity) (k.learns n slots held)
        ]
        | inr (entry, known) ↦
            elim (Bool-cases (entry.node == source && entry.endpoint == bytes.b1)) [
              | inl same ↦ simp (known, same, learn_entity) held
              | inr moved ↦ simp (known, moved, learn_entity) (k.learns n _ held)
            ]
      ]

  react-keeps : (r : Reaction W) (s : Sys W) → P s.node → P (react env r s).node
  unfolding react
  react-keeps r s held = k.sends _ s.node (settled-publish r.publications s.node) held

  notify_state_listeners-keeps :
      (entity : ℕ) (value : TypedValue) (quality : ℕ) (slots : List (Option ℕ)) (s : Sys W)
      → P s.node
      → P (notify_state_listeners env entity value quality slots s).node
  unfolding notify_state_listeners
  notify_state_listeners-keeps entity value quality [] s held = held
  notify_state_listeners-keeps entity value quality (none ∷ slots) s held =
      notify_state_listeners-keeps entity value quality slots s held
  notify_state_listeners-keeps entity value quality (some l ∷ slots) s held = ground (
    arith,
    notify_state_listeners-keeps entity value quality slots s held,
    notify_state_listeners-keeps entity value quality slots
        (react env (env.state l value quality s.world) s)
        (react-keeps (env.state l value quality s.world) s held),
  )

  notify_event_listeners-keeps :
      (entity : ℕ) (value : TypedValue) (flags : ℕ) (slots : List (Option ℕ)) (s : Sys W)
      → P s.node
      → P (notify_event_listeners env entity value flags slots s).node
  unfolding notify_event_listeners
  notify_event_listeners-keeps entity value flags [] s held = held
  notify_event_listeners-keeps entity value flags (none ∷ slots) s held =
      notify_event_listeners-keeps entity value flags slots s held
  notify_event_listeners-keeps entity value flags (some l ∷ slots) s held = ground (
    arith,
    notify_event_listeners-keeps entity value flags slots s held,
    notify_event_listeners-keeps entity value flags slots
        (react env (env.event l value flags s.world) s)
        (react-keeps (env.event l value flags s.world) s held),
  )

  handle_state-keeps :
      (source : ℕ) (bytes : Bytes8) (s : Sys W)
      → P s.node
      → P (handle_state env source bytes s).node
  unfolding handle_state
  handle_state-keeps source bytes s held = elim (Option-cases (entity_for source bytes.b1 s.node)) [
    | inl e ↦ simp (e, handle_state) held
    | inr (entity, e) ↦
        simp (e, handle_state)
          (notify_state_listeners-keeps entity (typed_value bytes) bytes.b3 s.node.state_listeners s
            held)
  ]

  handle_event-keeps :
      (frame : ProtocolFrame) (s : Sys W) → P s.node → P (handle_event env frame s).node
  unfolding handle_event
  handle_event-keeps frame s held =
      let bytes = frame.payload.bytes in
      elim (Option-cases (entity_for frame.identifier.source bytes.b1 s.node)) [
        | inl e ↦ ground (
          arith,
          e,
          held,
          k.sends _ s.node (settled-acknowledge frame Status.accepted s.node) held,
        )
        | inr (entity, e) ↦
            let heard =
              notify_event_listeners env entity (typed_value bytes) bytes.b3 s.node.event_listeners
                s in
            let still =
              notify_event_listeners-keeps entity (typed_value bytes) bytes.b3
                s.node.event_listeners s held in
            ground (
              arith,
              e,
              still,
              k.sends _ heard.node (settled-acknowledge frame Status.accepted heard.node) still,
            )
      ]

  assign-keeps : (bytes : Bytes8) (s : Sys W) → P s.node → P (assign env bytes s).node
  unfolding assign
  assign-keeps bytes s held = elim (Option-cases (next_free_address s.node)) [
    | inl e ↦ simp (e, assign) held
    | inr (candidate, e) ↦ elim (Option-cases s.node.address) [
      | inl none_yet ↦ ground (arith, e, none_yet, held)
      | inr (a, own) ↦ ground (arith, e, own, held, k.marks s.node candidate held)
    ]
  ]

  handle_discovery_response-keeps :
      (frame : ProtocolFrame) (s : Sys W)
      → P s.node
      → P (handle_discovery_response env frame s).node
  unfolding handle_discovery_response
  handle_discovery_response-keeps frame s held =
      ground (arith, assign-keeps frame.payload.bytes s held)

  pub handle-keeps :
      (frame : ProtocolFrame) (now : ℕ) (s : Sys W)
      → (let noted : Sys W = record s { node = note_source frame.identifier.source now s.node } in
          has_kind MessageKind.command frame ≡ true
          → P noted.node
          → P (handle_command env frame now noted).node)
      → P s.node
      → P (handle env frame now s).node
  unfolding schedule_discovery_response handle_entity_resolve
  handle-keeps frame now s0 commands held0 =
      let source = frame.identifier.source in
      let bytes = frame.payload.bytes in
      let s : Sys W = record s0 { node = note_source source now s0.node } in
      let held : P s.node = note_source-keeps k source now s0.node held0 in
      handle-branches env P frame now s0 (handle_address_claim-keeps source bytes s held)
        (k.defers s.node _ held) (handle_address_conflict-keeps bytes s held)
        (handle_address_assign-keeps bytes now s held) (learn_entity-keeps source bytes s held)
        (handle_entity_resolve_from-keeps k _ s.node.owned_entities s.node held)
        (handle_state-keeps source bytes s held) (handle_event-keeps frame s held)
        (λ kind. commands kind held) (handle_discovery_response-keeps frame s held)
