-- ===== src/Runtime/Settled.antt =====
-- What sending leaves alone: all of the node but the queues and the sequence number.
use esphome_hacan.Base.{
  ℕ, List, [], ◌∷◌, ◌≡◌, refl, ◌∙◌, Option-cases, Result-cases, inl, inr, arith, Bytes8,
}
use esphome_hacan.Types.{Priority, MessageKind, kind_code, Status}
use esphome_hacan.TypedValue.{TypedValue}
use esphome_hacan.CanIdentifier.{create}
use esphome_hacan.FrameCodec.{RawCanFrame, ProtocolFrame, encode}
use esphome_hacan.Payload.State
use esphome_hacan.Payload.Event
use esphome_hacan.Runtime.Env.{Env, Publication}
use esphome_hacan.Runtime.Uid.{Uid}
use esphome_hacan.Runtime.Queue.{FrameQueue, empty, take_head}
use esphome_hacan.Runtime.Node.{Node, Sys}
use esphome_hacan.Runtime.Transmit.{
  QueueName, queue, drain, drain_first, drain_one, add_to, with_queue, enqueue_state, enqueue_raw,
  enqueue,
}
use esphome_hacan.Runtime.Send.{
  send, send_address_conflict, send_entity_claim, send_entity_resolve, acknowledge, next_sequence,
}
use esphome_hacan.Runtime.Publish.{publish_state, publish_event, publish}

unfoldable pub settled : Node → Node
settled n = record n {
  control_queue = empty;
  event_queue = empty;
  state_queue = empty;
  management_queue = empty;
  diagnostic_queue = empty;
  sequence = 0;
}

pub settled-with_queue :
    (name : QueueName) (q : FrameQueue) (n : Node) → settled (with_queue name q n) ≡ settled n
unfolding settled
settled-with_queue QueueName.control q n = refl
settled-with_queue _ q n = refl

pub settled-next_sequence : (n : Node) → settled (next_sequence n) ≡ settled n
unfolding settled next_sequence
settled-next_sequence n = refl

settled-add_to :
    (name : QueueName) (raw : RawCanFrame) (n : Node) → settled (add_to name raw n).0 ≡ settled n
unfolding add_to
settled-add_to name raw n = settled-with_queue name _ n

settled-enqueue_state :
    (frame : ProtocolFrame) (raw : RawCanFrame) (n : Node)
    → settled (enqueue_state frame raw n).0 ≡ settled n
unfolding enqueue_state settled
settled-enqueue_state frame raw n = ground (arith, settled-add_to QueueName.state raw n)

settled-enqueue_raw :
    (p : Priority) (frame : ProtocolFrame) (raw : RawCanFrame) (n : Node)
    → settled (enqueue_raw p frame raw n).0 ≡ settled n
unfolding enqueue_raw
settled-enqueue_raw Priority.control frame raw n = settled-add_to QueueName.control raw n
settled-enqueue_raw Priority.event frame raw n = settled-add_to QueueName.event raw n
settled-enqueue_raw Priority.state_query frame raw n = settled-enqueue_state frame raw n
settled-enqueue_raw Priority.management frame raw n = settled-add_to QueueName.management raw n
settled-enqueue_raw Priority.diagnostic frame raw n = settled-add_to QueueName.diagnostic raw n
settled-enqueue_raw _ frame raw n = refl

pub settled-enqueue : (frame : ProtocolFrame) (n : Node) → settled (enqueue frame n).0 ≡ settled n
unfolding enqueue
settled-enqueue frame n = elim (Result-cases (encode frame)) [
  | inl (raw, e) ↦ ground (arith, settled-enqueue_raw frame.identifier.priority frame raw n)
  | inr (x, e) ↦ ground arith
]

pub settled-send :
    (p : Priority) (k : MessageKind) (destination source : ℕ) (bytes : Bytes8) (n : Node)
    → settled (send p k destination source bytes n) ≡ settled n
unfolding send
settled-send p k destination source bytes n =
    elim (Option-cases (create p (kind_code k) destination source 0)) [
      | inl e ↦ ground arith
      | inr (id, e) ↦ ground (
        arith,
        settled-enqueue (record { identifier = id; payload = record { kind = k; bytes = bytes } })
            n,
      )
    ]

pub settled-send_address_conflict :
    (u : Uid) (n : Node) → settled (send_address_conflict u n) ≡ settled n
unfolding send_address_conflict
settled-send_address_conflict u n = elim (Option-cases n.address) [
  | inl e ↦ ground arith
  | inr (a, e) ↦
      simp (e, send_address_conflict)
        (settled-send _ _ _ _ _ (next_sequence n) ∙ settled-next_sequence n)
]

pub settled-send_entity_claim :
    (entity endpoint : ℕ) (n : Node) → settled (send_entity_claim entity endpoint n) ≡ settled n
unfolding send_entity_claim
settled-send_entity_claim entity endpoint n = elim (Option-cases n.address) [
  | inl e ↦ ground arith
  | inr (a, e) ↦
      simp (e, send_entity_claim)
        (settled-send _ _ _ _ _ (next_sequence n) ∙ settled-next_sequence n)
]

pub settled-send_entity_resolve :
    (entity : ℕ) (n : Node) → settled (send_entity_resolve entity n) ≡ settled n
unfolding send_entity_resolve
settled-send_entity_resolve entity n = elim (Option-cases n.address) [
  | inl e ↦ ground arith
  | inr (a, e) ↦
      simp (e, send_entity_resolve)
        (settled-send _ _ _ _ _ (next_sequence n) ∙ settled-next_sequence n)
]

pub settled-acknowledge :
    (frame : ProtocolFrame) (status : Status) (n : Node)
    → settled (acknowledge frame status n) ≡ settled n
unfolding acknowledge
settled-acknowledge frame status n = elim (Option-cases n.address) [
  | inl e ↦ ground arith
  | inr (a, e) ↦ simp (e, acknowledge) (settled-send _ _ _ _ _ n)
]

pub settled-publish_state :
    (endpoint : ℕ) (value : TypedValue) (quality : ℕ) (n : Node)
    → settled (publish_state endpoint value quality n).0 ≡ settled n
unfolding publish_state
settled-publish_state endpoint value quality n = elim (Option-cases n.address) [
  | inl e ↦ ground arith
  | inr (a, e) ↦ elim (Option-cases (State.create n.sequence endpoint value quality)) [
    | inl c ↦ ground (arith, settled-next_sequence n)
    | inr (p, c) ↦
        elim (Option-cases (create Priority.state_query (kind_code MessageKind.state) 0x1ff a 0)) [
          | inl d ↦ ground (arith, settled-next_sequence n)
          | inr (id, d) ↦ ground (
            arith,
            settled-enqueue
                (record {
                  identifier = id;
                  payload = record { kind = MessageKind.state; bytes = State.encode p };
                })
                (next_sequence n),
            settled-next_sequence n,
          )
        ]
  ]
]

pub settled-publish_event :
    (endpoint : ℕ) (value : TypedValue) (flags : ℕ) (n : Node)
    → settled (publish_event endpoint value flags n).0 ≡ settled n
unfolding publish_event
settled-publish_event endpoint value flags n = elim (Option-cases n.address) [
  | inl e ↦ ground arith
  | inr (a, e) ↦ elim (Option-cases (Event.create n.sequence endpoint value flags)) [
    | inl c ↦ ground (arith, settled-next_sequence n)
    | inr (p, c) ↦
        elim (Option-cases (create Priority.event (kind_code MessageKind.event) 0x1ff a 0)) [
          | inl d ↦ ground (arith, settled-next_sequence n)
          | inr (id, d) ↦ ground (
            arith,
            settled-enqueue
                (record {
                  identifier = id;
                  payload = record { kind = MessageKind.event; bytes = Event.encode p };
                })
                (next_sequence n),
            settled-next_sequence n,
          )
        ]
  ]
]

pub settled-publish :
    (publications : List Publication) (n : Node) → settled (publish publications n) ≡ settled n
unfolding publish
settled-publish [] n = refl
settled-publish (Publication.state endpoint value quality ∷ rest) n =
    settled-publish rest _ ∙ settled-publish_state endpoint value quality n
settled-publish (Publication.event endpoint value flags ∷ rest) n =
    settled-publish rest _ ∙ settled-publish_event endpoint value flags n

module _ {W : Type 0} (env : Env W) where
  pub settled-drain :
      (name : QueueName) (s : Sys W) → settled (drain env name s).0.node ≡ settled s.node
  unfolding drain
  settled-drain name s = elim (Option-cases (take_head (queue name s.node))) [
    | inl e ↦ simp (e, drain) refl
    | inr ((frame, rest), e) ↦ simp (e, drain) (settled-with_queue name rest s.node)
  ]

  settled-drain_first :
      (names : List QueueName) (s : Sys W)
      → settled (drain_first env names s).0.node ≡ settled s.node
  unfolding drain_first
  settled-drain_first [] s = refl
  settled-drain_first (name ∷ names) s =
      ground (arith, settled-drain name s, settled-drain_first names (drain env name s).0)

  pub settled-drain_one : (s : Sys W) → settled (drain_one env s).0.node ≡ settled s.node
  unfolding drain_one
  settled-drain_one s = settled-drain_first _ s
