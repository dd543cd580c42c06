-- ===== src/Runtime/Transmit/Coalescing.antt =====
-- `enqueue` and `drain_one` keep the waiting states different.
use esphome_hacan.Base.{
  ◌≡◌, ◌==◌, ap, sym, subst, ◌∙◌, inl, inr, none, some, List, [], ◌∷◌, ◌++◌, arith, ok, take,
  Distinct, append_none-Distinct, append_some-Distinct, Option-cases, Result-cases, Bool-cases,
}
use esphome_hacan.Types.{Priority, MessageKind, kind_code}
use esphome_hacan.CanIdentifier.RoundTrip.{IsInRange}
use esphome_hacan.FrameCodec.{RawCanFrame, ProtocolFrame, decode, encode}
use esphome_hacan.FrameCodec.RoundTrip.{decode-encode}
use esphome_hacan.Runtime.Queue.{FrameQueue, add}
use esphome_hacan.Runtime.Queue.Fifo.{IsWellFormed, waiting, waiting-add}
use esphome_hacan.Runtime.Node.{Node}
use esphome_hacan.Runtime.Transmit.{
  QueueName, queue, with_queue, add_to, coalesce_from, enqueue_state, enqueue_raw, enqueue,
}
use esphome_hacan.Runtime.Transmit.States.{
  same_key, key_of, frame_key, state_key, keys, StatesDiffer, same_key-symmetric, keys-take,
  keys-append, keys-coalesce_from, coalesce_from-none,
}

waiting-set :
    (q : FrameQueue) (slots : List RawCanFrame)
    → keys slots ≡ keys q.slots
    → keys (waiting (record q { slots = slots })) ≡ keys (waiting q)
waiting-set q slots e =
    keys-take q.count slots ∙ ap (take q.count) e ∙ sym (keys-take q.count q.slots)

-- An added frame that is no state, or a state about something else than those that wait.
add-StatesDiffer :
    (raw : RawCanFrame) (q : FrameQueue)
    → IsWellFormed q
    → Distinct same_key (keys (waiting q) ++ state_key raw ∷ [])
    → StatesDiffer q
    → StatesDiffer (add raw q).0
add-StatesDiffer raw q fit new d = elim (waiting-add raw q fit) [
  | inl (room, added, e) ↦
      subst (Distinct same_key) (sym (ap keys e ∙ keys-append (waiting q) raw)) new
  | inr (full, refused, e) ↦ subst StatesDiffer (sym e) d
]

enqueue_state-StatesDiffer :
    (frame : ProtocolFrame) (raw : RawCanFrame) (n : Node)
    → decode raw ≡ ok frame
    → IsWellFormed n.state_queue
    → StatesDiffer n.state_queue
    → StatesDiffer (enqueue_state frame raw n).0.state_queue
unfolding enqueue_state add_to
enqueue_state-StatesDiffer frame raw n e fit d =
    let q = n.state_queue in
    let about : state_key raw ≡ frame_key frame = ground (arith, e) in
    elim (Bool-cases (frame.identifier.kind == kind_code MessageKind.state)) [
      | inr other ↦
          let nothing : state_key raw ≡ none = ground (arith, about, other) in
          simp (other, enqueue_state)
            (add-StatesDiffer raw q fit
              (subst (λ k. Distinct same_key (keys (waiting q) ++ k ∷ [])) (sym nothing)
                (append_none-Distinct same_key (keys (waiting q)) d))
              d)
      | inl is_state ↦
          let this : state_key raw ≡ some (key_of frame) = ground (arith, about, is_state) in
          elim (Option-cases (coalesce_from q.count 0 frame raw q.slots)) [
            | inl absent ↦
                let new =
                  coalesce_from-none q.count 0 frame raw q.slots
                    (ground (arith, fit.eight_slots, fit.count_fits)) absent in
                simp (is_state, absent, enqueue_state)
                  (add-StatesDiffer raw q fit
                    (subst (λ k. Distinct same_key (keys (waiting q) ++ k ∷ [])) (sym this)
                      (append_some-Distinct same_key (key_of frame) (keys (waiting q))
                        same_key-symmetric new d))
                    d)
            | inr (slots, found) ↦
                let same = keys-coalesce_from q.count 0 frame raw q.slots slots this found in
                simp (is_state, found, enqueue_state)
                  (subst (Distinct same_key) (sym (waiting-set q slots same)) d)
          ]
    ]

enqueue_raw-StatesDiffer :
    (p : Priority) (frame : ProtocolFrame) (raw : RawCanFrame) (n : Node)
    → decode raw ≡ ok frame
    → IsWellFormed n.state_queue
    → StatesDiffer n.state_queue
    → StatesDiffer (enqueue_raw p frame raw n).0.state_queue
unfolding enqueue_raw add_to
enqueue_raw-StatesDiffer Priority.state_query frame raw n e fit d =
    enqueue_state-StatesDiffer frame raw n e fit d
enqueue_raw-StatesDiffer _ frame raw n e fit d = d

pub enqueue-StatesDiffer :
    (frame : ProtocolFrame) (n : Node)
    → IsInRange frame.identifier
    → IsWellFormed n.state_queue
    → StatesDiffer n.state_queue
    → StatesDiffer (enqueue frame n).0.state_queue
unfolding enqueue
enqueue-StatesDiffer frame n range fit d = elim (Result-cases (encode frame)) [
  | inl (raw, e) ↦
      simp (e, enqueue)
        (enqueue_raw-StatesDiffer frame.identifier.priority frame raw n
          (decode-encode frame range e) fit d)
  | inr (x, e) ↦ simp (e, enqueue) d
]

-- What is left of a queue whose oldest frame is taken.
take_head-StatesDiffer :
    (q rest : FrameQueue) (frame : RawCanFrame)
    → waiting q ≡ frame ∷ waiting rest
    → StatesDiffer q
    → StatesDiffer rest
take_head-StatesDiffer q rest frame w d =
    let all : Distinct same_key (state_key frame ∷ keys (waiting rest)) =
      subst (λ l. Distinct same_key (keys l)) w d in
    elim (Option-cases (state_key frame)) [
      | inl other ↦ subst (λ k. Distinct same_key (k ∷ keys (waiting rest))) other all
      | inr (k, about) ↦ (subst (λ j. Distinct same_key (j ∷ keys (waiting rest))) about all).1
    ]

pub with_queue-StatesDiffer :
    (name : QueueName) (rest : FrameQueue) (frame : RawCanFrame) (n : Node)
    → waiting (queue name n) ≡ frame ∷ waiting rest
    → StatesDiffer n.state_queue
    → StatesDiffer (with_queue name rest n).state_queue
with_queue-StatesDiffer QueueName.state rest frame n w d =
    take_head-StatesDiffer n.state_queue rest frame w d
with_queue-StatesDiffer _ rest frame n w d = d
