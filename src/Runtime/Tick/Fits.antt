-- ===== src/Runtime/Tick/Fits.antt =====
-- A tick leaves the queues well formed.
use esphome_hacan.Base.{ℕ, zero, suc, u8, ◌+◌, inl, inr, none, List, [], ◌∷◌, arith, Option-cases}
use esphome_hacan.Runtime.Env.{Env}
use esphome_hacan.Runtime.Queue.Fifo.{waiting-take_head}
use esphome_hacan.Runtime.Node.{Node, Sys}
use esphome_hacan.Runtime.Directory.{expire_source, expire_from, expire_offline}
use esphome_hacan.Runtime.Transmit.{QueueName, queue, drain, drain_first, drain_one}
use esphome_hacan.Runtime.Transmit.Backlog.{queue-IsWellFormed, with_queue-QueuesFit}
use esphome_hacan.Runtime.Transmit.States.{QueuesHold}
use esphome_hacan.Runtime.Transmit.Coalescing.{with_queue-StatesDiffer}
use esphome_hacan.Runtime.Fits.{
  send_claim-QueuesHold, send_entity_claim-QueuesHold, send_entity_resolve-QueuesHold,
  send_discovery_request-QueuesHold, send_discovery_response-QueuesHold,
}
use esphome_hacan.Runtime.Send.{
  send_claim, send_heartbeat, send_discovery_request, send_discovery_response, next_sequence,
}
use esphome_hacan.Runtime.Tick.{
  skip_empty, entry_at, init_claim_schedule, resolve_next, skip_owned, next_owned, claim_owned,
  tick_entities, tick_assigned, tick_unassigned, tick_scheduled, tick,
}

resolve_next-QueuesHold : (n : Node) → QueuesHold n → QueuesHold (resolve_next n)
unfolding resolve_next
resolve_next-QueuesHold n fit =
    let index = skip_empty n.observed_resolve_index n.observed_entities in
    elim (Option-cases (entry_at n.observed_entities index)) [
      | inl e ↦ ground arith
      | inr (entity, e) ↦
          let n' : Node = record n { observed_resolve_index = u8 (index + 1) } in
          ground (arith, send_entity_resolve-QueuesHold entity n' fit)
    ]

init_claim_schedule-QueuesHold :
    (now : ℕ) (n : Node) → QueuesHold n → QueuesHold (init_claim_schedule now n)
unfolding init_claim_schedule
init_claim_schedule-QueuesHold now n fit = elim (Option-cases n.address) [
  | inl e ↦ ground arith
  | inr (a, e) ↦ ground arith
]

module _ {W : Type 0} (env : Env W) where
  drain-QueuesHold :
      (name : QueueName) (s : Sys W) → QueuesHold s.node → QueuesHold (drain env name s).0.node
  unfolding drain
  drain-QueuesHold name s fit =
      elim (waiting-take_head (queue name s.node) (queue-IsWellFormed name s.node fit.0)) [
        | inl (w, e) ↦ simp (e, drain) fit
        | inr (frame, rest, e, w, ok) ↦
            simp (e, drain)
              (
                with_queue-QueuesFit name rest s.node fit.0 ok,
                with_queue-StatesDiffer name rest frame s.node w fit.1,
              )
      ]

  drain_first-QueuesHold :
      (names : List QueueName) (s : Sys W)
      → QueuesHold s.node
      → QueuesHold (drain_first env names s).0.node
  unfolding drain_first
  drain_first-QueuesHold [] s fit = fit
  drain_first-QueuesHold (name ∷ names) s fit =
      ground (arith, drain-QueuesHold name s fit, drain_first-QueuesHold names (drain env name s).0)

  pub drain_one-QueuesHold : (s : Sys W) → QueuesHold s.node → QueuesHold (drain_one env s).0.node
  unfolding drain_one
  drain_one-QueuesHold s fit = drain_first-QueuesHold _ s fit

  expire_source-QueuesHold :
      (now source : ℕ) (s : Sys W)
      → QueuesHold s.node
      → QueuesHold (expire_source env now source s).node
  unfolding expire_source
  expire_source-QueuesHold now source s fit = ground arith

  expire_from-QueuesHold :
      (left now source : ℕ) (s : Sys W)
      → QueuesHold s.node
      → QueuesHold (expire_from env left now source s).node
  unfolding expire_from
  expire_from-QueuesHold zero now source s fit = fit
  expire_from-QueuesHold (suc left) now source s fit =
      expire_from-QueuesHold left now (suc source) (expire_source env now source s)
        (expire_source-QueuesHold now source s fit)

  send_heartbeat-QueuesHold :
      (address now : ℕ) (s : Sys W)
      → QueuesHold s.node
      → QueuesHold (send_heartbeat env address now s).node
  unfolding send_heartbeat next_sequence
  send_heartbeat-QueuesHold address now s fit = ground arith

  tick_entities-QueuesHold : (s : Sys W) → QueuesHold s.node → QueuesHold (tick_entities env s).node
  unfolding tick_entities skip_owned claim_owned
  tick_entities-QueuesHold s fit = elim (Option-cases (next_owned (skip_owned s.node))) [
    | inl e ↦
        simp (e, tick_entities)
          (drain_one-QueuesHold _ (resolve_next-QueuesHold (skip_owned s.node) fit))
    | inr (owned, e) ↦
        simp (e, tick_entities)
          (drain_one-QueuesHold _ (send_entity_claim-QueuesHold owned.entity owned.endpoint _ fit))
  ]

  tick_assigned-QueuesHold :
      (address now : ℕ) (s : Sys W)
      → QueuesHold s.node
      → QueuesHold (tick_assigned env address now s).node
  unfolding tick_assigned
  tick_assigned-QueuesHold address now s fit =
      let n = s.node in
      ground (
        arith,
        drain_one-QueuesHold (record s { node = send_claim n }) (send_claim-QueuesHold n fit),
        send_heartbeat-QueuesHold address now s fit,
        tick_entities-QueuesHold s fit,
      )

  tick_unassigned-QueuesHold :
      (now : ℕ) (s : Sys W) → QueuesHold s.node → QueuesHold (tick_unassigned env now s).node
  unfolding tick_unassigned
  tick_unassigned-QueuesHold now s fit =
      let n = s.node in
      ground (
        arith,
        drain_one-QueuesHold (record s { node = send_discovery_request now n })
            (send_discovery_request-QueuesHold now n fit),
        tick_entities-QueuesHold s fit,
      )

  tick_scheduled-QueuesHold :
      (now : ℕ) (s : Sys W) → QueuesHold s.node → QueuesHold (tick_scheduled env now s).node
  unfolding tick_scheduled
  tick_scheduled-QueuesHold now s fit =
      let s' : Sys W = record s { node = init_claim_schedule now s.node } in
      let fit' : QueuesHold s'.node = init_claim_schedule-QueuesHold now s.node fit in
      elim (Option-cases s'.node.address) [
        | inl e ↦ simp (e, tick_scheduled) (tick_unassigned-QueuesHold now s' fit')
        | inr (a, e) ↦ simp (e, tick_scheduled) (tick_assigned-QueuesHold a now s' fit')
      ]

  pub tick-QueuesHold : (now : ℕ) (s : Sys W) → QueuesHold s.node → QueuesHold (tick env now s).node
  unfolding tick expire_offline
  tick-QueuesHold now s0 fit0 =
      let s = expire_offline env now s0 in
      let fit : QueuesHold s.node = expire_from-QueuesHold 510 now 1 s0 fit0 in
      elim (Option-cases s.node.pending_discovery_response) [
        | inl e ↦ ground (arith, tick_scheduled-QueuesHold now s fit)
        | inr (pending, e) ↦
            let n = send_discovery_response pending.transaction pending.requester s.node in
            let fit' : QueuesHold n = send_discovery_response-QueuesHold _ _ s.node fit in
            ground (
              arith,
              tick_scheduled-QueuesHold now s fit,
              drain_one-QueuesHold
                  (record s { node = record n { pending_discovery_response = none } }) fit',
            )
      ]
