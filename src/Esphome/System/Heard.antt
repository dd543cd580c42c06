-- ===== src/Esphome/System/Heard.antt =====
-- A state that one node publishes and another hears.
use esphome_hacan.Base.{
  ℕ, zero, suc, ◌≡◌, ◌<◌, refl, ◌∙◌, inl, inr, true, ok, some, none, ◌∷◌, arith, replicate,
  Result-cases,
}
use esphome_hacan.Types.{Priority, MessageKind, kind_code}
use esphome_hacan.TypedValue.{TypedValue}
use esphome_hacan.CanIdentifier.{create}
use esphome_hacan.FrameCodec.{RawCanFrame, ProtocolFrame, encode, decode}
use esphome_hacan.FrameCodec.RoundTrip.{decode-encode}
use esphome_hacan.Payload.Value.{valid_endpoint, write_value}
use esphome_hacan.Payload.State
use esphome_hacan.Runtime.Env.{Env}
use esphome_hacan.Runtime.Node.{Node, Sys}
use esphome_hacan.Runtime.Queue.Fifo.{IsWellFormed, waiting}
use esphome_hacan.Runtime.Directory.{entity_for}
use esphome_hacan.Runtime.Send.{next_sequence}
use esphome_hacan.Runtime.Transmit.{enqueue_state, enqueue_raw, enqueue}
use esphome_hacan.Runtime.Transmit.Pending.{Joins, enqueue_state-Joins}
use esphome_hacan.Runtime.Publish.{publish_state}
use esphome_hacan.Runtime.Handle.{
  handle, handle_state, notify_state_listeners, react, note_source, receive, typed_value,
}
use esphome_hacan.Esphome.System.Events.{note_source-SameTables, entity_for-SameTables}

-- The frame that `publish_state` makes at address `a`.
abbrev pub state_frame : ℕ → ℕ → ℕ → TypedValue → ℕ → ProtocolFrame
state_frame a sequence endpoint value quality = record {
  identifier = record {
    priority = Priority.state_query;
    kind = kind_code MessageKind.state;
    destination = 0x1ff;
    source = a;
    hop = 0;
  };
  payload = record {
    kind = MessageKind.state;
    bytes = record {
      b0 = sequence;
      b1 = endpoint;
      b2 = value.type;
      b3 = quality;
      b4 = value.bytes.v0;
      b5 = value.bytes.v1;
      b6 = value.bytes.v2;
      b7 = value.bytes.v3;
    };
  };
}

-- A publication that succeeds enqueues its frame.
publish_state-enqueues :
    (a endpoint : ℕ) (value : TypedValue) (quality : ℕ) (n : Node)
    → n.address ≡ some a
    → (publish_state endpoint value quality n).1 ≡ true
    → (a < 0x200)
      × (publish_state endpoint value quality n
          ≡ enqueue (state_frame a n.sequence endpoint value quality) (next_sequence n))
unfolding publish_state State.create State.encode create valid_endpoint write_value
publish_state-enqueues a endpoint value quality n own done = ground arith

enqueue-state :
    (frame : ProtocolFrame) (n : Node)
    → frame.identifier.priority ≡ Priority.state_query
    → (enqueue frame n).1 ≡ true
    → (raw : RawCanFrame) × (encode frame ≡ ok raw) × (enqueue frame n ≡ enqueue_state frame raw n)
unfolding enqueue enqueue_raw
enqueue-state frame n p done = elim (Result-cases (encode frame)) [
  | inl (raw, e) ↦ (raw, e, ground (arith, e, p))
  | inr (x, e) ↦ absurd (ground (arith, e, done))
]

note_source-state_listeners :
    (source now : ℕ) (n : Node) → (note_source source now n).state_listeners ≡ n.state_listeners
unfolding note_source
note_source-state_listeners source now n = ground arith

module _ {W : Type 0} (env : Env W) where
  notify_state_none :
      (entity : ℕ) (value : TypedValue) (quality k : ℕ) (s : Sys W)
      → notify_state_listeners env entity value quality (replicate k none) s ≡ s
  unfolding notify_state_listeners
  notify_state_none entity value quality zero s = refl
  notify_state_none entity value quality (suc k) s = notify_state_none entity value quality k s

  handle_state-one :
      (frame : ProtocolFrame) (entity k listener : ℕ) (s : Sys W)
      → let bytes = frame.payload.bytes in
        entity_for frame.identifier.source bytes.b1 s.node ≡ some entity
        → s.node.state_listeners ≡ some listener ∷ replicate k none
        → env.state_entity listener ≡ entity
        → handle_state env frame.identifier.source bytes s
          ≡ react env (env.state listener (typed_value bytes) bytes.b3 s.world) s
  unfolding handle_state notify_state_listeners
  handle_state-one frame entity k listener s known only watched =
      let bytes = frame.payload.bytes in
      let told = react env (env.state listener (typed_value bytes) bytes.b3 s.world) s in
      ground
        (arith, known, only, watched, notify_state_none entity (typed_value bytes) bytes.b3 k told)

  receive-state_raw :
      (frame : ProtocolFrame) (raw : RawCanFrame) (now entity k listener : ℕ) (s : Sys W)
      → decode raw ≡ ok frame
      → frame.identifier.kind ≡ kind_code MessageKind.state
      → entity_for frame.identifier.source frame.payload.bytes.b1 s.node ≡ some entity
      → s.node.state_listeners ≡ some listener ∷ replicate k none
      → env.state_entity listener ≡ entity
      → (receive env raw now s).world
        ≡ (env.state listener
            (typed_value frame.payload.bytes)
            frame.payload.bytes.b3
            s.world).world
  unfolding receive handle react
  receive-state_raw frame raw now entity k listener s decoded kind known only watched =
      let source = frame.identifier.source in
      let noted : Sys W = record s { node = note_source source now s.node } in
      let same = note_source-SameTables source now s.node in
      let told =
        handle_state-one frame entity k listener noted
          (entity_for-SameTables source frame.payload.bytes.b1 noted.node s.node same ∙ known)
          (note_source-state_listeners source now s.node ∙ only) watched in
      ground (arith, decoded, kind, told)

  -- A node publishes a state, and its state queue is well formed. If the publication succeeds, one
  -- raw frame is in that queue, in place of a waiting state of the same source, destination and
  -- endpoint, or else behind all others. A node that receives this frame, knows an entity at the
  -- endpoint of the address, and has one listener, which observes that entity, does to the world
  -- what the listener does on the published value and quality.
  pub publish_state-heard :
      (a endpoint quality : ℕ) (value : TypedValue) (n : Node) (now entity k listener : ℕ)
      (s : Sys W)
      → n.address ≡ some a
      → IsWellFormed n.state_queue
      → (publish_state endpoint value quality n).1 ≡ true
      → entity_for a endpoint s.node ≡ some entity
      → s.node.state_listeners ≡ some listener ∷ replicate k none
      → env.state_entity listener ≡ entity
      → let published = (publish_state endpoint value quality n).0 in
        (raw : RawCanFrame) × Joins
          (state_frame a n.sequence endpoint value quality)
          raw
          (waiting n.state_queue)
          (waiting published.state_queue)
        × ((receive env raw now s).world ≡ (env.state listener value quality s.world).world)
  unfolding next_sequence
  publish_state-heard a endpoint quality value n now entity k listener s own formed done known only
        watched =
      let frame = state_frame a n.sequence endpoint value quality in
      let (fits, queued) = publish_state-enqueues a endpoint value quality n own done in
      let (raw, encoded, put) = enqueue-state frame (next_sequence n) refl (simp queued at done) in
      let decoded =
        decode-encode frame
          (record {
            kind_fits = omega arith;
            destination_fits = omega arith;
            source_fits = omega arith;
            hop_fits = omega arith;
          })
          encoded in
      let both = queued ∙ put in
      (
        raw,
        simp both (enqueue_state-Joins frame raw (next_sequence n) formed refl (simp both at done)),
        receive-state_raw frame raw now entity k listener s decoded refl known only watched,
      )
