-- ===== src/Runtime/Fits.antt =====
-- The queues stay well formed, and the waiting states different, whatever the runtime sends.
use esphome_hacan.Base.{
  ℕ, zero, suc, ◌<◌, ◌≡◌, ◌==◌, not, ◌||◌, ◌∙◌, inl, inr, some, List, [], ◌∷◌, arith, Bytes8,
  length, length-set, Option-cases, Result-cases, Bool-cases,
}
use esphome_hacan.Types.{Priority, MessageKind, kind_code, Status}
use esphome_hacan.TypedValue.{TypedValue}
use esphome_hacan.CanIdentifier.{create}
use esphome_hacan.FrameCodec.{RawCanFrame, ProtocolFrame, encode}
use esphome_hacan.Payload.State
use esphome_hacan.Payload.Event
use esphome_hacan.Runtime.Env.{Publication}
use esphome_hacan.Runtime.Uid.{Uid}
use esphome_hacan.Runtime.Queue.{add}
use esphome_hacan.Runtime.Queue.Fifo.{IsWellFormed, add-IsWellFormed}
use esphome_hacan.Runtime.Node.{Node}
use esphome_hacan.Runtime.Registry.{owns_endpoint}
use esphome_hacan.Runtime.Transmit.{
  QueueName, queue, add_to, coalesce_from, enqueue_state, enqueue_raw, enqueue,
}
use esphome_hacan.CanIdentifier.{CanIdentifier}
use esphome_hacan.CanIdentifier.RoundTrip.{IsInRange, create-IsInRange}
use esphome_hacan.Runtime.Transmit.States.{QueuesHold}
use esphome_hacan.Runtime.Transmit.Coalescing.{enqueue-StatesDiffer}
use esphome_hacan.Runtime.Transmit.Backlog.{QueuesFit, queue-IsWellFormed, with_queue-QueuesFit}
use esphome_hacan.Runtime.Send.{
  send, send_address_conflict, send_entity_claim, send_entity_resolve, send_claim,
  send_discovery_request, send_discovery_response, schedule_discovery_response, acknowledge,
  next_sequence,
}
use esphome_hacan.Runtime.Publish.{publish_state, publish_event, publish}

add_to-QueuesFit :
    (name : QueueName) (raw : RawCanFrame) (n : Node)
    → QueuesFit n
    → QueuesFit (add_to name raw n).0
unfolding add_to
add_to-QueuesFit name raw n fit =
    with_queue-QueuesFit name (add raw (queue name n)).0 n fit
      (add-IsWellFormed raw (queue name n) (queue-IsWellFormed name n fit))

length-coalesce_from :
    (left index : ℕ) (frame : ProtocolFrame) (raw : RawCanFrame) (slots slots' : List RawCanFrame)
    → coalesce_from left index frame raw slots ≡ some slots'
    → length slots' ≡ length slots
unfolding coalesce_from
length-coalesce_from zero index frame raw slots slots' e = ground arith
length-coalesce_from (suc left) index frame raw slots slots' e = ground (
  arith,
  length-set slots index raw,
  length-coalesce_from left (suc index) frame raw slots slots',
)

enqueue_state-QueuesFit :
    (frame : ProtocolFrame) (raw : RawCanFrame) (n : Node)
    → QueuesFit n
    → QueuesFit (enqueue_state frame raw n).0
unfolding enqueue_state
enqueue_state-QueuesFit frame raw n (c, e, s, m, d) =
    elim (Bool-cases (frame.identifier.kind == kind_code MessageKind.state)) [
      | inr other ↦ simp other (add_to-QueuesFit QueueName.state raw n (c, e, s, m, d))
      | inl is_state ↦
          elim (Option-cases (coalesce_from n.state_queue.count 0 frame raw n.state_queue.slots)) [
            | inl absent ↦
                simp (is_state, absent) (add_to-QueuesFit QueueName.state raw n (c, e, s, m, d))
            | inr (slots, found) ↦
                let same =
                  length-coalesce_from n.state_queue.count 0 frame raw n.state_queue.slots slots
                    found in
                let kept : IsWellFormed (record (n.state_queue) { slots = slots }) = record {
                  eight_slots = same ∙ s.eight_slots;
                  count_fits = s.count_fits;
                } in
                simp (is_state, found) (c, e, kept, m, d)
          ]
    ]

enqueue_raw-QueuesFit :
    (p : Priority) (frame : ProtocolFrame) (raw : RawCanFrame) (n : Node)
    → QueuesFit n
    → QueuesFit (enqueue_raw p frame raw n).0
unfolding enqueue_raw
enqueue_raw-QueuesFit Priority.control frame raw n fit =
    add_to-QueuesFit QueueName.control raw n fit
enqueue_raw-QueuesFit Priority.event frame raw n fit = add_to-QueuesFit QueueName.event raw n fit
enqueue_raw-QueuesFit Priority.state_query frame raw n fit = enqueue_state-QueuesFit frame raw n fit
enqueue_raw-QueuesFit Priority.management frame raw n fit =
    add_to-QueuesFit QueueName.management raw n fit
enqueue_raw-QueuesFit Priority.diagnostic frame raw n fit =
    add_to-QueuesFit QueueName.diagnostic raw n fit
enqueue_raw-QueuesFit _ frame raw n fit = fit

enqueue-QueuesFit : (frame : ProtocolFrame) (n : Node) → QueuesFit n → QueuesFit (enqueue frame n).0
unfolding enqueue
enqueue-QueuesFit frame n fit = elim (Result-cases (encode frame)) [
  | inl (raw, e) ↦
      simp (e, enqueue) (enqueue_raw-QueuesFit frame.identifier.priority frame raw n fit)
  | inr (x, e) ↦ simp (e, enqueue) fit
]

pub enqueue-QueuesHold :
    (frame : ProtocolFrame) (n : Node)
    → IsInRange frame.identifier
    → QueuesHold n
    → QueuesHold (enqueue frame n).0
enqueue-QueuesHold frame n range fit = (
  enqueue-QueuesFit frame n fit.0,
  enqueue-StatesDiffer frame n range (queue-IsWellFormed QueueName.state n fit.0) fit.1,
)

kind_code-lt : (k : MessageKind) → kind_code k < 32
kind_code-lt MessageKind.protocol_error = omega arith
kind_code-lt _ = omega arith

created-IsInRange :
    (p : Priority) (k : MessageKind) (d s hop : ℕ) {id : CanIdentifier}
    → create p (kind_code k) d s hop ≡ some id
    → IsInRange id
created-IsInRange p k d s hop e = create-IsInRange p (kind_code k) d s hop (kind_code-lt k) e

pub send-QueuesHold :
    (p : Priority) (k : MessageKind) (destination source : ℕ) (bytes : Bytes8) (n : Node)
    → QueuesHold n
    → QueuesHold (send p k destination source bytes n)
unfolding send
send-QueuesHold p k destination source bytes n fit =
    elim (Option-cases (create p (kind_code k) destination source 0)) [
      | inl e ↦ simp (e, send) fit
      | inr (id, e) ↦
          simp (e, send) (enqueue-QueuesHold _ n (created-IsInRange p k destination source 0 e) fit)
    ]

pub send_address_conflict-QueuesHold :
    (u : Uid) (n : Node) → QueuesHold n → QueuesHold (send_address_conflict u n)
unfolding send_address_conflict next_sequence
send_address_conflict-QueuesHold u n fit = elim (Option-cases n.address) [
  | inl e ↦ simp (e, send_address_conflict) fit
  | inr (a, e) ↦ simp (e, send_address_conflict) (send-QueuesHold _ _ _ _ _ _ fit)
]

pub send_entity_claim-QueuesHold :
    (entity endpoint : ℕ) (n : Node)
    → QueuesHold n
    → QueuesHold (send_entity_claim entity endpoint n)
unfolding send_entity_claim next_sequence
send_entity_claim-QueuesHold entity endpoint n fit = elim (Option-cases n.address) [
  | inl e ↦ simp (e, send_entity_claim) fit
  | inr (a, e) ↦ simp (e, send_entity_claim) (send-QueuesHold _ _ _ _ _ _ fit)
]

pub send_entity_resolve-QueuesHold :
    (entity : ℕ) (n : Node) → QueuesHold n → QueuesHold (send_entity_resolve entity n)
unfolding send_entity_resolve next_sequence
send_entity_resolve-QueuesHold entity n fit = elim (Option-cases n.address) [
  | inl e ↦ simp (e, send_entity_resolve) fit
  | inr (a, e) ↦ simp (e, send_entity_resolve) (send-QueuesHold _ _ _ _ _ _ fit)
]

pub acknowledge-QueuesHold :
    (frame : ProtocolFrame) (status : Status) (n : Node)
    → QueuesHold n
    → QueuesHold (acknowledge frame status n)
unfolding acknowledge next_sequence
acknowledge-QueuesHold frame status n fit = elim (Option-cases n.address) [
  | inl e ↦ simp (e, acknowledge) fit
  | inr (a, e) ↦ simp (e, acknowledge) (send-QueuesHold _ _ _ _ _ _ fit)
]

pub send_claim-QueuesHold : (n : Node) → QueuesHold n → QueuesHold (send_claim n)
unfolding send_claim next_sequence
send_claim-QueuesHold n fit = elim (Option-cases n.address) [
  | inl e ↦ simp (e, send_claim) fit
  | inr (a, e) ↦ simp (e, send_claim) (send-QueuesHold _ _ _ _ _ _ fit)
]

pub send_discovery_response-QueuesHold :
    (transaction requester : ℕ) (n : Node)
    → QueuesHold n
    → QueuesHold (send_discovery_response transaction requester n)
unfolding send_discovery_response
send_discovery_response-QueuesHold transaction requester n fit = send-QueuesHold _ _ _ _ _ n fit

pub send_discovery_request-QueuesHold :
    (now : ℕ) (n : Node) → QueuesHold n → QueuesHold (send_discovery_request now n)
unfolding send_discovery_request schedule_discovery_response next_sequence
send_discovery_request-QueuesHold now n fit = send-QueuesHold _ _ _ _ _ (next_sequence n) fit

pub publish_state-QueuesHold :
    (endpoint : ℕ) (value : TypedValue) (quality : ℕ) (n : Node)
    → QueuesHold n
    → QueuesHold (publish_state endpoint value quality n).0
unfolding publish_state next_sequence
publish_state-QueuesHold endpoint value quality n fit = elim (Option-cases n.address) [
  | inl e ↦ simp (e, publish_state) fit
  | inr (a, e) ↦ elim (Bool-cases (not (owns_endpoint endpoint n))) [
    | inl refused ↦ simp (e, refused, publish_state) fit
    | inr owned ↦ elim (Option-cases (State.create n.sequence endpoint value quality)) [
      | inl c ↦ simp (e, owned, c, publish_state) fit
      | inr (p, c) ↦
          elim (Option-cases
            (create Priority.state_query (kind_code MessageKind.state) 0x1ff a 0)) [
              | inl d ↦ simp (e, owned, c, d, publish_state) fit
              | inr (id, d) ↦
                  simp (e, owned, c, d, publish_state)
                    (enqueue-QueuesHold _ _
                      (created-IsInRange Priority.state_query MessageKind.state 0x1ff a 0 d) fit)
            ]
    ]
  ]
]

pub publish_event-QueuesHold :
    (endpoint : ℕ) (value : TypedValue) (flags : ℕ) (n : Node)
    → QueuesHold n
    → QueuesHold (publish_event endpoint value flags n).0
unfolding publish_event next_sequence
publish_event-QueuesHold endpoint value flags n fit = elim (Option-cases n.address) [
  | inl e ↦ simp (e, publish_event) fit
  | inr (a, e) ↦ elim (Bool-cases (not (owns_endpoint endpoint n) || not (flags == 0))) [
    | inl refused ↦ simp (e, refused, publish_event) fit
    | inr owned ↦ elim (Option-cases (Event.create n.sequence endpoint value flags)) [
      | inl c ↦ simp (e, owned, c, publish_event) fit
      | inr (p, c) ↦
          elim (Option-cases (create Priority.event (kind_code MessageKind.event) 0x1ff a 0)) [
            | inl d ↦ simp (e, owned, c, d, publish_event) fit
            | inr (id, d) ↦
                simp (e, owned, c, d, publish_event)
                  (enqueue-QueuesHold _ _
                    (created-IsInRange Priority.event MessageKind.event 0x1ff a 0 d) fit)
          ]
    ]
  ]
]

pub publish-QueuesHold :
    (publications : List Publication) (n : Node)
    → QueuesHold n
    → QueuesHold (publish publications n)
unfolding publish
publish-QueuesHold [] n fit = fit
publish-QueuesHold (Publication.state endpoint value quality ∷ rest) n fit =
    publish-QueuesHold rest _ (publish_state-QueuesHold endpoint value quality n fit)
publish-QueuesHold (Publication.event endpoint value flags ∷ rest) n fit =
    publish-QueuesHold rest _ (publish_event-QueuesHold endpoint value flags n fit)
