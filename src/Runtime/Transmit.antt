-- ===== src/Runtime/Transmit.antt =====
-- The five transmit queues of the runtime: `enqueue` and `drain_one`.
pub mod Backlog
pub mod States
pub mod Coalescing
pub mod Pending
use esphome_hacan.Base.{
  ℕ, zero, suc, Bool, true, false, ◌&&◌, Option, none, some, List, [], ◌∷◌, ◌==◌, if◌then◌else◌, ok,
  err, get_or, set,
}
use esphome_hacan.Types.{Priority, MessageKind, kind_code}
use esphome_hacan.FrameCodec.{RawCanFrame, ProtocolFrame, decode, encode}
use esphome_hacan.Runtime.Env.{Env}
use esphome_hacan.Runtime.Queue.{FrameQueue, add, take_head, blank_frame}
use esphome_hacan.Runtime.Node.{Node, Sys}

pub data QueueName : Type 0 where
  control event state management diagnostic : QueueName

abbrev pub queue : QueueName → Node → FrameQueue
queue QueueName.control n = n.control_queue
queue QueueName.event n = n.event_queue
queue QueueName.state n = n.state_queue
queue QueueName.management n = n.management_queue
queue QueueName.diagnostic n = n.diagnostic_queue

abbrev pub with_queue : QueueName → FrameQueue → Node → Node
with_queue QueueName.control q n = record n { control_queue = q }
with_queue QueueName.event q n = record n { event_queue = q }
with_queue QueueName.state q n = record n { state_queue = q }
with_queue QueueName.management q n = record n { management_queue = q }
with_queue QueueName.diagnostic q n = record n { diagnostic_queue = q }

-- `add(…_queue_, …_count_)` of `enqueue`.
unfoldable pub add_to : QueueName → RawCanFrame → Node → Node × Bool
add_to name raw n = let (q, added) = add raw (queue name n) in (with_queue name q n, added)

-- Whether a queued frame is a state of the same source, destination and endpoint.
unfoldable pub same_state_source : ProtocolFrame → RawCanFrame → Bool
same_state_source frame pending = elim (decode pending) [
  | err e ↦ false
  | ok p ↦
      p.identifier.kind == kind_code MessageKind.state
      && p.identifier.source == frame.identifier.source
      && p.identifier.destination == frame.identifier.destination
      && p.payload.bytes.b1 == frame.payload.bytes.b1
]

-- The loop of `enqueue` over the state queue at `index`: the slots with the pending state replaced.
unfoldable pub coalesce_from :
    ℕ → ℕ → ProtocolFrame → RawCanFrame → List RawCanFrame → Option (List RawCanFrame)
coalesce_from zero index frame raw slots = none
coalesce_from (suc left) index frame raw slots =
    let rest = coalesce_from left (suc index) frame raw slots in
    if same_state_source frame (get_or slots index blank_frame)
    then some (set slots index raw)
    else rest

unfoldable pub enqueue_state : ProtocolFrame → RawCanFrame → Node → Node × Bool
enqueue_state frame raw n =
    let q = n.state_queue in
    if frame.identifier.kind == kind_code MessageKind.state
    then elim (coalesce_from q.count 0 frame raw q.slots) [
      | some slots ↦ (record n { state_queue = record q { slots = slots } }, true)
      | none ↦ add_to QueueName.state raw n
    ]
    else add_to QueueName.state raw n

-- The `switch` over the priority.
unfoldable pub enqueue_raw : Priority → ProtocolFrame → RawCanFrame → Node → Node × Bool
enqueue_raw Priority.control frame raw n = add_to QueueName.control raw n
enqueue_raw Priority.event frame raw n = add_to QueueName.event raw n
enqueue_raw Priority.state_query frame raw n = enqueue_state frame raw n
enqueue_raw Priority.management frame raw n = add_to QueueName.management raw n
enqueue_raw Priority.diagnostic frame raw n = add_to QueueName.diagnostic raw n
enqueue_raw _ frame raw n = (n, false)

unfoldable pub enqueue : ProtocolFrame → Node → Node × Bool
enqueue frame n = elim (encode frame) [
  | err e ↦ (n, false)
  | ok raw ↦ enqueue_raw frame.identifier.priority frame raw n
]

module _ {W : Type 0} (env : Env W) where
  -- The lambda `drain` of `drain_one`, on one queue.
  unfoldable pub drain : QueueName → Sys W → Sys W × Bool
  drain name s = elim (take_head (queue name s.node)) [
    | none ↦ (s, false)
    | some (frame, rest) ↦
        let (w, sent) = env.transmit frame s.world in
        (record { node = with_queue name rest s.node; world = w }, sent)
  ]

  -- The chain of `if (drain(…)) return true;`, and the last `return drain(…)`.
  unfoldable pub drain_first : List QueueName → Sys W → Sys W × Bool
  drain_first [] s = (s, false)
  drain_first (name ∷ names) s =
      let (s', sent) = drain name s in
      let rest = drain_first names s' in if sent then (s', true) else rest

  abbrev pub by_urgency : List QueueName
  by_urgency =
      QueueName.control ∷ QueueName.event ∷ QueueName.state ∷ QueueName.management
      ∷ QueueName.diagnostic ∷ []

  unfoldable pub drain_one : Sys W → Sys W × Bool
  drain_one s = drain_first by_urgency s
