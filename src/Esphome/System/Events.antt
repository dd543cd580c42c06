-- ===== src/Esphome/System/Events.antt =====
-- An event from the bus to a device of the board, and a copy of it.
use esphome_hacan.Base.{
  ℕ, zero, suc, not, ◌&&◌, ◌≡◌, ◌==◌, refl, ap, ◌∙◌, some, none, ◌∷◌, arith, bit_and, if◌then◌else◌,
  replicate,
}
use esphome_hacan.Types.{MessageKind, kind_code, Status}
use esphome_hacan.TypedValue.{TypedValue}
use esphome_hacan.FrameCodec.{ProtocolFrame}
use esphome_hacan.Runtime.Env.{Env}
use esphome_hacan.Runtime.Node.{Node, Sys}
use esphome_hacan.Runtime.Directory.{entity_for, own_entity_for}
use esphome_hacan.Runtime.Send.{acknowledge}
use esphome_hacan.Runtime.Settled.{settled, settled-publish, settled-acknowledge}
use esphome_hacan.Runtime.Handle.{
  handle, handle_event, notify_event_listeners, react, note_source, typed_value, is_own,
}

-- What decides who is told of an event.
pub record SameTables (m n : Node) : Type 0 where
  pub address : m.address ≡ n.address
  pub entities : m.entities ≡ n.entities
  pub owned_entities : m.owned_entities ≡ n.owned_entities
  pub event_listeners : m.event_listeners ≡ n.event_listeners

SameTables-trans : (l m n : Node) → SameTables l m → SameTables m n → SameTables l n
SameTables-trans l m n p q = record {
  address = p.address ∙ q.address;
  entities = p.entities ∙ q.entities;
  owned_entities = p.owned_entities ∙ q.owned_entities;
  event_listeners = p.event_listeners ∙ q.event_listeners;
}

SameTables-of_settled : (m n : Node) → settled m ≡ settled n → SameTables m n
unfolding settled
SameTables-of_settled m n e = record {
  address = ap (λ (k : Node). k.address) e;
  entities = ap (λ (k : Node). k.entities) e;
  owned_entities = ap (λ (k : Node). k.owned_entities) e;
  event_listeners = ap (λ (k : Node). k.event_listeners) e;
}

pub note_source-SameTables : (source now : ℕ) (n : Node) → SameTables (note_source source now n) n
unfolding note_source
note_source-SameTables source now n = ground arith

pub entity_for-SameTables :
    (source endpoint : ℕ) (m n : Node)
    → SameTables m n
    → entity_for source endpoint m ≡ entity_for source endpoint n
unfolding entity_for own_entity_for
entity_for-SameTables source endpoint m n same =
    ap (λ a. entity_for source endpoint (record m { address = a })) same.address
    ∙ ap (λ es. entity_for source endpoint (record m { address = n.address; entities = es }))
        same.entities
    ∙ ap (λ os. entity_for source endpoint (record n { owned_entities = os })) same.owned_entities

module _ {W : Type 0} (env : Env W) where
  notify_none :
      (entity : ℕ) (value : TypedValue) (flags k : ℕ) (s : Sys W)
      → notify_event_listeners env entity value flags (replicate k none) s ≡ s
  unfolding notify_event_listeners
  notify_none entity value flags zero s = refl
  notify_none entity value flags (suc k) s = notify_none entity value flags k s

  notify_one :
      (entity : ℕ) (value : TypedValue) (flags k listener : ℕ) (s : Sys W)
      → env.event_entity listener ≡ entity
      → notify_event_listeners env entity value flags (some listener ∷ replicate k none) s
        ≡ react env (env.event listener value flags s.world) s
  unfolding notify_event_listeners
  notify_one entity value flags k listener s e = notify_none entity value flags k _ ∙ ground arith

  -- An event for the own address.
  handle-event :
      (frame : ProtocolFrame) (now : ℕ) (s : Sys W)
      → frame.identifier.kind ≡ kind_code MessageKind.event
      → s.node.address ≡ some frame.identifier.destination
      → handle env frame now s
        ≡ handle_event env frame
            (record s { node = note_source frame.identifier.source now s.node })
  unfolding handle note_source
  handle-event frame now s k own = ground arith

  -- The end of `handle_event`: the acknowledgement, if the event asks for it.
  abbrev acknowledged : ProtocolFrame → Sys W → Sys W
  acknowledged frame t =
      if is_own frame.identifier.destination t.node && not (bit_and frame.payload.bytes.b3 1 == 0)
      then record t { node = acknowledge frame Status.accepted t.node }
      else t

  acknowledged-settled :
      (frame : ProtocolFrame) (t : Sys W)
      → ((acknowledged frame t).world ≡ t.world)
        × (settled (acknowledged frame t).node ≡ settled t.node)
  acknowledged-settled frame t = ground (arith, settled-acknowledge frame Status.accepted t.node)

  handle_event-known :
      (frame : ProtocolFrame) (entity : ℕ) (s : Sys W)
      → let bytes = frame.payload.bytes in
        entity_for frame.identifier.source bytes.b1 s.node ≡ some entity
        → handle_event env frame s
          ≡ acknowledged frame (
              notify_event_listeners env entity
                (typed_value bytes)
                bytes.b3
                s.node.event_listeners
                s)
  unfolding handle_event
  handle_event-known frame entity s known = simp (known, handle_event) refl

  pub handle_event-one :
      (frame : ProtocolFrame) (entity k listener : ℕ) (s : Sys W)
      → entity_for frame.identifier.source frame.payload.bytes.b1 s.node ≡ some entity
      → s.node.event_listeners ≡ some listener ∷ replicate k none
      → env.event_entity listener ≡ entity
      → let bytes = frame.payload.bytes in
        ((handle_event env frame s).world
          ≡ (env.event listener (typed_value bytes) bytes.b3 s.world).world)
        × SameTables (handle_event env frame s).node s.node
  unfolding react
  handle_event-one frame entity k listener s known only watched =
      let bytes = frame.payload.bytes in
      let r = env.event listener (typed_value bytes) bytes.b3 s.world in
      let told : Sys W = react env r s in
      let step : handle_event env frame s ≡ acknowledged frame told =
        handle_event-known frame entity s known
        ∙ ap (acknowledged frame) (
            ap (λ slots. notify_event_listeners env entity (typed_value bytes) bytes.b3 slots s)
              only
            ∙ notify_one entity (typed_value bytes) bytes.b3 k listener s watched) in
      (
        ap (λ (t : Sys W). t.world) step ∙ (acknowledged-settled frame told).0,
        SameTables-of_settled _ _ (
            ap (λ (t : Sys W). settled t.node) step
            ∙ (acknowledged-settled frame told).1
            ∙ settled-publish r.publications s.node),
      )

  -- An event for the own address, of an entity that one listener watches: the listener is told.
  handle-event_one :
      (frame : ProtocolFrame) (now entity k listener : ℕ) (s : Sys W)
      → frame.identifier.kind ≡ kind_code MessageKind.event
      → s.node.address ≡ some frame.identifier.destination
      → entity_for frame.identifier.source frame.payload.bytes.b1 s.node ≡ some entity
      → s.node.event_listeners ≡ some listener ∷ replicate k none
      → env.event_entity listener ≡ entity
      → let bytes = frame.payload.bytes in
        ((handle env frame now s).world
          ≡ (env.event listener (typed_value bytes) bytes.b3 s.world).world)
        × SameTables (handle env frame now s).node s.node
  handle-event_one frame now entity k listener s kind own known only watched =
      let source = frame.identifier.source in
      let noted : Sys W = record s { node = note_source source now s.node } in
      let same = note_source-SameTables source now s.node in
      let told =
        handle_event-one frame entity k listener noted
          (entity_for-SameTables source frame.payload.bytes.b1 noted.node s.node same ∙ known)
          (same.event_listeners ∙ only) watched in
      let step = handle-event frame now s kind own in
      simp step (told.0, SameTables-trans _ _ _ told.1 same)

  -- The same event once more: the listener is told once more.
  pub handle-event_twice :
      (frame : ProtocolFrame) (now later entity k listener : ℕ) (s : Sys W)
      → frame.identifier.kind ≡ kind_code MessageKind.event
      → s.node.address ≡ some frame.identifier.destination
      → entity_for frame.identifier.source frame.payload.bytes.b1 s.node ≡ some entity
      → s.node.event_listeners ≡ some listener ∷ replicate k none
      → env.event_entity listener ≡ entity
      → let bytes = frame.payload.bytes in
        let once = (env.event listener (typed_value bytes) bytes.b3 s.world).world in
        (handle env frame later (handle env frame now s)).world
        ≡ (env.event listener (typed_value bytes) bytes.b3 once).world
  handle-event_twice frame now later entity k listener s kind own known only watched =
      let first = handle-event_one frame now entity k listener s kind own known only watched in
      let s' = handle env frame now s in
      let second =
        handle-event_one frame later entity k listener s' kind (first.1.address ∙ own)
          (entity_for-SameTables frame.identifier.source frame.payload.bytes.b1 s'.node s.node
              first.1
            ∙ known)
          (first.1.event_listeners ∙ only) watched in
      second.0
      ∙ ap
          (λ w.
            (env.event listener (typed_value frame.payload.bytes) frame.payload.bytes.b3 w).world)
          first.0
