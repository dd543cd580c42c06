-- ===== src/Esphome/System/Broadcast.antt =====
-- An event that one node publishes and another hears.
use esphome_hacan.Base.{
  ℕ, ◌≡◌, ◌<◌, refl, ap, ◌∙◌, inl, inr, true, ok, some, none, [], ◌∷◌, ◌++◌, arith, replicate,
  Bytes8,
}
use esphome_hacan.Types.{Priority, MessageKind, kind_code}
use esphome_hacan.TypedValue.{TypedValue, is_valid}
use esphome_hacan.CanIdentifier.{create, to_raw}
use esphome_hacan.WirePayload.{validate, priority, valid_identifier, valid_bytes}
use esphome_hacan.FrameCodec.{RawCanFrame, ProtocolFrame, encode}
use esphome_hacan.FrameCodec.RoundTrip.{decode-encode}
use esphome_hacan.Payload.Value.{valid_endpoint}
use esphome_hacan.Payload.Event
use esphome_hacan.Runtime.Env.{Env}
use esphome_hacan.Runtime.Node.{Node, Sys}
use esphome_hacan.Runtime.Queue.{capacity}
use esphome_hacan.Runtime.Queue.Fifo.{IsWellFormed, waiting, waiting-add}
use esphome_hacan.Runtime.Directory.{entity_for}
use esphome_hacan.Runtime.Registry.{owns_endpoint}
use esphome_hacan.Runtime.Send.{next_sequence}
use esphome_hacan.Runtime.Transmit.{QueueName, add_to, enqueue_raw, enqueue}
use esphome_hacan.Runtime.Publish.{publish_event}
use esphome_hacan.Runtime.Handle.{handle, handle_event, note_source, receive}
use esphome_hacan.Esphome.System.Events.{
  note_source-SameTables, entity_for-SameTables, handle_event-one,
}

-- The frame that `publish_event` makes at address `a`.
abbrev event_bytes : ℕ → ℕ → TypedValue → Bytes8
event_bytes sequence endpoint value = record {
  b0 = sequence;
  b1 = endpoint;
  b2 = value.type;
  b3 = 0;
  b4 = value.bytes.v0;
  b5 = value.bytes.v1;
  b6 = value.bytes.v2;
  b7 = value.bytes.v3;
}

abbrev event_frame : ℕ → ℕ → ℕ → TypedValue → ProtocolFrame
event_frame a sequence endpoint value = record {
  identifier = record {
    priority = Priority.event;
    kind = kind_code MessageKind.event;
    destination = 0x1ff;
    source = a;
    hop = 0;
  };
  payload = record { kind = MessageKind.event; bytes = event_bytes sequence endpoint value };
}

abbrev event_raw : ℕ → ℕ → ℕ → TypedValue → RawCanFrame
event_raw a sequence endpoint value = record {
  can_id = to_raw (event_frame a sequence endpoint value).identifier;
  extended = true;
  dlc = 8;
  bytes = event_bytes sequence endpoint value;
}

event_bytes-accepted :
    (sequence endpoint : ℕ) (value : TypedValue)
    → endpoint < 256
    → valid_endpoint endpoint ≡ true
    → is_valid value ≡ true
    → valid_bytes MessageKind.event (event_bytes sequence endpoint value) ≡ true
unfolding valid_bytes valid_endpoint
event_bytes-accepted sequence endpoint value h v e = ground arith

encode-event_frame :
    (a sequence endpoint : ℕ) (value : TypedValue)
    → 0 < a
    → a < 0x1ff
    → valid_bytes MessageKind.event (event_bytes sequence endpoint value) ≡ true
    → encode (event_frame a sequence endpoint value) ≡ ok (event_raw a sequence endpoint value)
unfolding encode validate priority valid_identifier
encode-event_frame a sequence endpoint value low lt accepted = ground arith

publish_event-enqueues :
    (a endpoint : ℕ) (value : TypedValue) (n : Node)
    → n.address ≡ some a
    → a < 0x1ff
    → owns_endpoint endpoint n ≡ true
    → valid_endpoint endpoint ≡ true
    → is_valid value ≡ true
    → publish_event endpoint value 0 n
      ≡ enqueue (event_frame a n.sequence endpoint value) (next_sequence n)
unfolding publish_event Event.create Event.encode create valid_endpoint
publish_event-enqueues a endpoint value n own lt owns valid valued = ground arith

enqueue-event :
    (frame : ProtocolFrame) (raw : RawCanFrame) (n : Node)
    → encode frame ≡ ok raw
    → frame.identifier.priority ≡ Priority.event
    → enqueue frame n ≡ add_to QueueName.event raw n
unfolding enqueue enqueue_raw
enqueue-event frame raw n e p = ground (arith, e, p)

module _ {W : Type 0} (env : Env W) where
  handle-event_frame :
      (a sequence endpoint : ℕ) (value : TypedValue) (now : ℕ) (s : Sys W)
      → handle env (event_frame a sequence endpoint value) now s
        ≡ handle_event env
            (event_frame a sequence endpoint value)
            (record s { node = note_source a now s.node })
  unfolding handle
  handle-event_frame a sequence endpoint value now s = ground arith

  receive-event_raw :
      (a sequence endpoint : ℕ) (value : TypedValue) (now : ℕ) (s : Sys W)
      → 0 < a
      → a < 0x1ff
      → encode (event_frame a sequence endpoint value) ≡ ok (event_raw a sequence endpoint value)
      → receive env (event_raw a sequence endpoint value) now s
        ≡ handle_event env
            (event_frame a sequence endpoint value)
            (record s { node = note_source a now s.node })
  unfolding receive
  receive-event_raw a sequence endpoint value now s low lt e =
      let decoded =
        decode-encode (event_frame a sequence endpoint value)
          (record {
            kind_fits = omega arith;
            destination_fits = omega arith;
            source_fits = omega arith;
            hop_fits = omega arith;
          })
          e in
      simp (decoded, receive) (handle-event_frame a sequence endpoint value now s)

  receive-event_one :
      (a sequence endpoint : ℕ) (value : TypedValue) (now entity k listener : ℕ) (s : Sys W)
      → 0 < a
      → a < 0x1ff
      → encode (event_frame a sequence endpoint value) ≡ ok (event_raw a sequence endpoint value)
      → entity_for a endpoint s.node ≡ some entity
      → s.node.event_listeners ≡ some listener ∷ replicate k none
      → env.event_entity listener ≡ entity
      → (receive env (event_raw a sequence endpoint value) now s).world
        ≡ (env.event listener value 0 s.world).world
  receive-event_one a sequence endpoint value now entity k listener s low lt e known only watched =
      let noted : Sys W = record s { node = note_source a now s.node } in
      let same = note_source-SameTables a now s.node in
      let told =
        handle_event-one env (event_frame a sequence endpoint value) entity k listener noted
          (entity_for-SameTables a endpoint noted.node s.node same ∙ known)
          (same.event_listeners ∙ only) watched in
      ap (λ (t : Sys W). t.world) (receive-event_raw a sequence endpoint value now s low lt e)
      ∙ told.0

  -- A node at an address from 1 to 0x1FE publishes an event of an endpoint that it owns, and its
  -- event queue is well formed and has room. Then one raw frame joins the end of that queue. A node
  -- that receives this frame, knows an entity at the endpoint of the address, and has one listener,
  -- which observes that entity, does to the world what the listener does on the published value.
  pub publish_event-heard :
      (a endpoint : ℕ) (value : TypedValue) (n : Node) (now entity k listener : ℕ) (s : Sys W)
      → n.address ≡ some a
      → 0 < a
      → a < 0x1ff
      → endpoint < 256
      → owns_endpoint endpoint n ≡ true
      → valid_endpoint endpoint ≡ true
      → is_valid value ≡ true
      → IsWellFormed n.event_queue
      → n.event_queue.count < capacity
      → entity_for a endpoint s.node ≡ some entity
      → s.node.event_listeners ≡ some listener ∷ replicate k none
      → env.event_entity listener ≡ entity
      → let published = publish_event endpoint value 0 n in
        (raw : RawCanFrame) × (published.1 ≡ true)
        × (waiting published.0.event_queue ≡ waiting n.event_queue ++ raw ∷ [])
        × ((receive env raw now s).world ≡ (env.event listener value 0 s.world).world)
  unfolding add_to next_sequence
  publish_event-heard a endpoint value n now entity k listener s own low lt fits owns valid valued
        formed room known only watched =
      let raw = event_raw a n.sequence endpoint value in
      let encoded =
        encode-event_frame a n.sequence endpoint value low lt
          (event_bytes-accepted n.sequence endpoint value fits valid valued) in
      let queued : publish_event endpoint value 0 n ≡ add_to QueueName.event raw (next_sequence n) =
        publish_event-enqueues a endpoint value n own lt owns valid valued
        ∙ enqueue-event (event_frame a n.sequence endpoint value) raw (next_sequence n) encoded
            refl in
      let added = waiting-add raw n.event_queue formed in
      let last : ((add_to QueueName.event raw (next_sequence n)).1 ≡ true)
          × (waiting (add_to QueueName.event raw (next_sequence n)).0.event_queue
              ≡ waiting n.event_queue ++ raw ∷ []) =
        elim added [
          | inl (space, took, joined) ↦ (took, joined)
          | inr (full, refused, kept) ↦ absurd (omega arith)
        ] in
      (
        raw,
        simp queued last.0,
        simp queued last.1,
        receive-event_one a n.sequence endpoint value now entity k listener s low lt encoded known
            only watched,
      )
