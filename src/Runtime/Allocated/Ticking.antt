-- ===== src/Runtime/Allocated/Ticking.antt =====
-- A tick leaves the allocated addresses allocated.
use esphome_hacan.Base.{ℕ, zero, suc, ◌+◌, inl, inr, none, arith, Option-cases, u8}
use esphome_hacan.Runtime.Env.{Env}
use esphome_hacan.Runtime.Node.{Node, Sys}
use esphome_hacan.Runtime.Settled.{
  settled-send, settled-drain_one, settled-send_entity_claim, settled-send_entity_resolve,
}
use esphome_hacan.Runtime.Directory.{expire_source, expire_from, expire_offline}
use esphome_hacan.Runtime.Transmit.{drain_one}
use esphome_hacan.Runtime.Send.{
  send_discovery_response, send_discovery_request, send_claim, send_heartbeat,
  schedule_discovery_response, next_sequence,
}
use esphome_hacan.Runtime.Tick.{
  entry_at, skip_empty, init_claim_schedule, resolve_next, skip_owned, next_owned, claim_owned,
  tick_entities, tick_assigned, tick_unassigned, tick_scheduled, tick,
}
use esphome_hacan.Runtime.Allocated.{Taken, Taken-of_settled}

module _ (j : ℕ) where
  send_discovery_response-Taken :
      (transaction requester : ℕ) (n : Node)
      → Taken j n
      → Taken j (send_discovery_response transaction requester n)
  unfolding send_discovery_response
  send_discovery_response-Taken transaction requester n taken =
      Taken-of_settled _ n (settled-send _ _ _ _ _ n) taken

  send_discovery_request-Taken :
      (now : ℕ) (n : Node) → Taken j n → Taken j (send_discovery_request now n)
  unfolding send_discovery_request schedule_discovery_response next_sequence
  send_discovery_request-Taken now n taken =
      Taken-of_settled _ (next_sequence n) (settled-send _ _ _ _ _ (next_sequence n)) taken

  send_claim-Taken : (n : Node) → Taken j n → Taken j (send_claim n)
  unfolding send_claim
  send_claim-Taken n taken = elim (Option-cases n.address) [
    | inl e ↦ simp (e, send_claim) taken
    | inr (a, e) ↦ simp (e, send_claim) (Taken-of_settled _ n (settled-send _ _ _ _ _ n) taken)
  ]

  resolve_next-Taken : (n : Node) → Taken j n → Taken j (resolve_next n)
  unfolding resolve_next
  resolve_next-Taken n taken =
      let index = skip_empty n.observed_resolve_index n.observed_entities in
      elim (Option-cases (entry_at n.observed_entities index)) [
        | inl e ↦ ground arith
        | inr (entity, e) ↦
            let n' : Node = record n { observed_resolve_index = u8 (index + 1) } in
            ground (arith, Taken-of_settled _ n' (settled-send_entity_resolve entity n') taken)
      ]

  init_claim_schedule-Taken : (now : ℕ) (n : Node) → Taken j n → Taken j (init_claim_schedule now n)
  unfolding init_claim_schedule
  init_claim_schedule-Taken now n taken = elim (Option-cases n.address) [
    | inl e ↦ ground arith
    | inr (a, e) ↦ ground arith
  ]

module _ {W : Type 0} (env : Env W) (j : ℕ) where
  drain_one-Taken : (s : Sys W) → Taken j s.node → Taken j (drain_one env s).0.node
  drain_one-Taken s taken = Taken-of_settled _ s.node (settled-drain_one env s) taken

  expire_from-Taken :
      (left now source : ℕ) (s : Sys W)
      → Taken j s.node
      → Taken j (expire_from env left now source s).node
  unfolding expire_from expire_source
  expire_from-Taken zero now source s taken = taken
  expire_from-Taken (suc left) now source s taken =
      expire_from-Taken left now (suc source) (expire_source env now source s) (ground arith)

  send_heartbeat-Taken :
      (address now : ℕ) (s : Sys W)
      → Taken j s.node
      → Taken j (send_heartbeat env address now s).node
  unfolding send_heartbeat next_sequence
  send_heartbeat-Taken address now s taken = ground arith

  tick_entities-Taken : (s : Sys W) → Taken j s.node → Taken j (tick_entities env s).node
  unfolding tick_entities skip_owned claim_owned
  tick_entities-Taken s taken = elim (Option-cases (next_owned (skip_owned s.node))) [
    | inl e ↦
        simp (e, tick_entities) (drain_one-Taken _ (resolve_next-Taken j (skip_owned s.node) taken))
    | inr (owned, e) ↦
        simp (e, tick_entities)
          (drain_one-Taken _
            (Taken-of_settled _ _ (settled-send_entity_claim owned.entity owned.endpoint _) taken))
  ]

  tick_assigned-Taken :
      (address now : ℕ) (s : Sys W)
      → Taken j s.node
      → Taken j (tick_assigned env address now s).node
  unfolding tick_assigned
  tick_assigned-Taken address now s taken =
      let n = s.node in
      ground (
        arith,
        drain_one-Taken (record s { node = send_claim n }) (send_claim-Taken j n taken),
        send_heartbeat-Taken address now s taken,
        tick_entities-Taken s taken,
      )

  tick_unassigned-Taken :
      (now : ℕ) (s : Sys W) → Taken j s.node → Taken j (tick_unassigned env now s).node
  unfolding tick_unassigned
  tick_unassigned-Taken now s taken =
      let n = s.node in
      ground (
        arith,
        drain_one-Taken (record s { node = send_discovery_request now n })
            (send_discovery_request-Taken j now n taken),
        tick_entities-Taken s taken,
      )

  tick_scheduled-Taken :
      (now : ℕ) (s : Sys W) → Taken j s.node → Taken j (tick_scheduled env now s).node
  unfolding tick_scheduled
  tick_scheduled-Taken now s taken =
      let s' : Sys W = record s { node = init_claim_schedule now s.node } in
      let taken' : Taken j s'.node = init_claim_schedule-Taken j now s.node taken in
      elim (Option-cases s'.node.address) [
        | inl e ↦ simp (e, tick_scheduled) (tick_unassigned-Taken now s' taken')
        | inr (a, e) ↦ simp (e, tick_scheduled) (tick_assigned-Taken a now s' taken')
      ]

  pub tick-Taken : (now : ℕ) (s : Sys W) → Taken j s.node → Taken j (tick env now s).node
  unfolding tick expire_offline
  tick-Taken now s0 taken0 =
      let s = expire_offline env now s0 in
      let taken : Taken j s.node = expire_from-Taken 510 now 1 s0 taken0 in
      elim (Option-cases s.node.pending_discovery_response) [
        | inl e ↦ ground (arith, tick_scheduled-Taken now s taken)
        | inr (pending, e) ↦
            let n = send_discovery_response pending.transaction pending.requester s.node in
            let taken' : Taken j n = send_discovery_response-Taken j _ _ s.node taken in
            ground (
              arith,
              tick_scheduled-Taken now s taken,
              drain_one-Taken (record s { node = record n { pending_discovery_response = none } })
                  taken',
            )
      ]
