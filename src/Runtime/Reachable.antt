-- ===== src/Runtime/Reachable.antt =====
-- The states that a runtime gets into: its constructor, then any sequence of the public operations
-- of `NodeRuntime`.
use esphome_hacan.Base.{ℕ, List, [], ◌∷◌, refl, arith}
use esphome_hacan.CanIdentifier.RoundTrip.{IsInRange}
use esphome_hacan.TypedValue.{TypedValue}
use esphome_hacan.FrameCodec.{RawCanFrame, ProtocolFrame}
use esphome_hacan.Runtime.Env.{Env}
use esphome_hacan.Runtime.Uid.{Uid}
use esphome_hacan.Runtime.Queue.{empty}
use esphome_hacan.Runtime.Queue.Fifo.{IsWellFormed}
use esphome_hacan.Runtime.Node.{Node, Sys, CommissioningRole, start, mark_own, fresh}
use esphome_hacan.Runtime.Registry.{
  register_owned_entity, add_owned, register_observed_entity, register_endpoint,
  register_state_listener, register_event_listener,
}
use esphome_hacan.Runtime.Publish.{publish_state, publish_event}
use esphome_hacan.Runtime.Handle.{receive}
use esphome_hacan.Runtime.Tick.{tick}
use esphome_hacan.Runtime.Transmit.{enqueue, drain_one}
use esphome_hacan.Runtime.Transmit.States.{QueuesHold, StatesDiffer}
use esphome_hacan.Runtime.Transmit.Backlog.{QueuesFit}
use esphome_hacan.Runtime.Fits.{
  enqueue-QueuesHold, publish_state-QueuesHold, publish_event-QueuesHold,
}
use esphome_hacan.Runtime.Handle.Fits.{receive-QueuesHold}
use esphome_hacan.Runtime.Tick.Fits.{drain_one-QueuesHold, tick-QueuesHold}

-- One call of a public operation that changes the runtime. A frame's identifier is one that
-- `CanIdentifier::create` makes of a kind with an enumerator or `from_raw` reads: its fields fit
-- their bits.
pub data Call : Type 0 where
  receive_frame : RawCanFrame → ℕ → Call
  tick_at : ℕ → Call
  state event : ℕ → TypedValue → ℕ → Call
  own_entity : ℕ → ℕ → Call
  observe_entity add_endpoint add_state_listener add_event_listener : ℕ → Call
  enqueue_frame : (frame : ProtocolFrame) → IsInRange frame.identifier → Call
  drain_next : Call

module _ {W : Type 0} (env : Env W) where
  unfoldable pub call : Call → Sys W → Sys W
  call (Call.receive_frame raw now) s = receive env raw now s
  call (Call.tick_at now) s = tick env now s
  call (Call.state endpoint value quality) s = record s {
    node = (publish_state endpoint value quality s.node).0;
  }
  call (Call.event endpoint value flags) s = record s {
    node = (publish_event endpoint value flags s.node).0;
  }
  call (Call.own_entity entity endpoint) s = record s {
    node = (register_owned_entity entity endpoint s.node).0;
  }
  call (Call.observe_entity entity) s = record s {
    node = (register_observed_entity entity s.node).0;
  }
  call (Call.add_endpoint handler) s = record s { node = (register_endpoint env handler s.node).0 }
  call (Call.add_state_listener listener) s = record s {
    node = (register_state_listener env listener s.node).0;
  }
  call (Call.add_event_listener listener) s = record s {
    node = (register_event_listener env listener s.node).0;
  }
  call (Call.enqueue_frame frame range) s = record s { node = (enqueue frame s.node).0 }
  call Call.drain_next s = (drain_one env s).0

  -- Calls one after another.
  abbrev pub run_calls : List Call → Sys W → Sys W
  run_calls [] s = s
  run_calls (c ∷ calls) s = run_calls calls (call c s)

  -- The world may change between two calls.
  pub data Reachable : Sys W → Type 0 where
    started : (uid : Uid) (role : CommissioningRole) (w : W) → Reachable (start env uid role w)
    called : {s : Sys W} (c : Call) → Reachable s → Reachable (call c s)
    elsewhere : {s : Sys W} (w : W) → Reachable s → Reachable (record s { world = w })

register_owned_entity-QueuesHold :
    (entity endpoint : ℕ) (n : Node)
    → QueuesHold n
    → QueuesHold (register_owned_entity entity endpoint n).0
unfolding register_owned_entity add_owned
register_owned_entity-QueuesHold entity endpoint n fit = ground arith

register_observed_entity-QueuesHold :
    (entity : ℕ) (n : Node) → QueuesHold n → QueuesHold (register_observed_entity entity n).0
unfolding register_observed_entity
register_observed_entity-QueuesHold entity n fit = ground arith

mark_own-QueuesHold : (n : Node) → QueuesHold n → QueuesHold (mark_own n)
unfolding mark_own
mark_own-QueuesHold n fit = ground arith

empty_fits : IsWellFormed empty
empty_fits = record { eight_slots = refl; count_fits = omega arith }

module _ {W : Type 0} (env : Env W) where
  register_endpoint-QueuesHold :
      (handler : ℕ) (n : Node) → QueuesHold n → QueuesHold (register_endpoint env handler n).0
  unfolding register_endpoint
  register_endpoint-QueuesHold handler n fit = ground arith

  register_state_listener-QueuesHold :
      (listener : ℕ) (n : Node)
      → QueuesHold n
      → QueuesHold (register_state_listener env listener n).0
  unfolding register_state_listener
  register_state_listener-QueuesHold listener n fit =
      ground (arith, register_observed_entity-QueuesHold (env.state_entity listener) n fit)

  register_event_listener-QueuesHold :
      (listener : ℕ) (n : Node)
      → QueuesHold n
      → QueuesHold (register_event_listener env listener n).0
  unfolding register_event_listener
  register_event_listener-QueuesHold listener n fit =
      ground (arith, register_observed_entity-QueuesHold (env.event_entity listener) n fit)

  pub start-QueuesHold :
      (uid : Uid) (role : CommissioningRole) (w : W) → QueuesHold (start env uid role w).node
  unfolding start fresh
  start-QueuesHold uid role w =
      mark_own-QueuesHold _ ((empty_fits, empty_fits, empty_fits, empty_fits, empty_fits), tt)

  pub call-QueuesHold : (c : Call) (s : Sys W) → QueuesHold s.node → QueuesHold (call env c s).node
  unfolding call
  call-QueuesHold (Call.receive_frame raw now) s fit = receive-QueuesHold env raw now s fit
  call-QueuesHold (Call.tick_at now) s fit = tick-QueuesHold env now s fit
  call-QueuesHold (Call.state endpoint value quality) s fit =
      publish_state-QueuesHold endpoint value quality s.node fit
  call-QueuesHold (Call.event endpoint value flags) s fit =
      publish_event-QueuesHold endpoint value flags s.node fit
  call-QueuesHold (Call.own_entity entity endpoint) s fit =
      register_owned_entity-QueuesHold entity endpoint s.node fit
  call-QueuesHold (Call.observe_entity entity) s fit =
      register_observed_entity-QueuesHold entity s.node fit
  call-QueuesHold (Call.add_endpoint handler) s fit =
      register_endpoint-QueuesHold handler s.node fit
  call-QueuesHold (Call.add_state_listener listener) s fit =
      register_state_listener-QueuesHold listener s.node fit
  call-QueuesHold (Call.add_event_listener listener) s fit =
      register_event_listener-QueuesHold listener s.node fit
  call-QueuesHold (Call.enqueue_frame frame range) s fit = enqueue-QueuesHold frame s.node range fit
  call-QueuesHold Call.drain_next s fit = drain_one-QueuesHold env s fit

  pub Reachable-QueuesHold : (s : Sys W) → Reachable env s → QueuesHold s.node
  Reachable-QueuesHold _ (started uid role w) = start-QueuesHold uid role w
  Reachable-QueuesHold _ (called {s} c r) = call-QueuesHold c s (Reachable-QueuesHold s r)
  Reachable-QueuesHold _ (elsewhere {s} w r) = Reachable-QueuesHold s r

  -- In every state that the constructor and any sequence of calls lead to, each of the five queues
  -- has its eight slots and holds at most eight frames.
  pub Reachable-QueuesFit : (s : Sys W) → Reachable env s → QueuesFit s.node
  Reachable-QueuesFit s r = (Reachable-QueuesHold s r).0

  -- In every state that the constructor and any sequence of calls lead to, no two frames that wait
  -- in the state queue are states of one source, destination and endpoint.
  pub Reachable-StatesDiffer : (s : Sys W) → Reachable env s → StatesDiffer s.node.state_queue
  Reachable-StatesDiffer s r = (Reachable-QueuesHold s r).1
