-- ===== src/Runtime/Tick/Period.antt =====
-- When an assigned node sends its next heartbeat.
use esphome_hacan.Base.{
  ℕ, ◌+◌, ◌^◌, ◌≤◌, ◌<◌, ◌≡◌, ◌⊎◌, ◌∙◌, refl, true, none, some, inl, inr, arith,
}
use esphome_hacan.Runtime.Env.{Env}
use esphome_hacan.Runtime.Node.{Node, Sys}
use esphome_hacan.Runtime.Send.{send_heartbeat, next_sequence}
use esphome_hacan.Runtime.Directory.{expire_offline}
use esphome_hacan.Runtime.Tick.{
  init_claim_schedule, tick_assigned, tick_entities, tick_scheduled, tick,
}
use esphome_hacan.Runtime.Tick.Quiet.{expire_from-keeps}

module _ {W : Type 0} (env : Env W) (address : ℕ) where
  heartbeat_due :
      (now later : ℕ) (s : Sys W)
      → now ≤ later
      → later < 2 ^ 32
      → (((2 ^ 32 ≤ now + 30000) ⊎ (now + 30000 ≤ later))
          × ((send_heartbeat env address now s).node.next_heartbeat_ms ≤ later))
        ⊎ ((now + 30000 < 2 ^ 32)
            × (later < now + 30000)
            × (later < (send_heartbeat env address now s).node.next_heartbeat_ms))
  unfolding send_heartbeat
  heartbeat_due now later s past clock = ground arith

  -- A node with the address that sent its claims, with a time for its next heartbeat and no
  -- discovery response to give.
  abbrev pub HasClaimed : Node → Type 0
  HasClaimed n =
      (n.pending_discovery_response ≡ none)
      × (n.address ≡ some address)
      × (n.claim_schedule_initialized ≡ true)
      × (n.claims_sent ≡ 2)

  abbrev Due : ℕ → Node → Type 0
  Due due n = HasClaimed n × (n.next_heartbeat_ms ≡ due)

  -- Its tick, behind the expiry that starts each.
  tick-claimed :
      (later : ℕ) (s : Sys W)
      → HasClaimed (expire_offline env later s).node
      → tick env later s ≡ tick_assigned env address later (expire_offline env later s)
  unfolding tick tick_scheduled init_claim_schedule
  tick-claimed later s h =
      let (quiet, own, scheduled, both) = h in
      let t = expire_offline env later s in simp (quiet, tick) (ground (arith, own, scheduled))

  HasClaimed-send_heartbeat :
      (now : ℕ) (s : Sys W) → HasClaimed s.node → HasClaimed (send_heartbeat env address now s).node
  unfolding send_heartbeat next_sequence
  HasClaimed-send_heartbeat now s h = h

  Due-expire_offline :
      (now due : ℕ) (s : Sys W) → Due due s.node → Due due (expire_offline env now s).node
  unfolding expire_offline
  Due-expire_offline now due s h = expire_from-keeps env (Due due) (λ n seen es g. g) 510 now 1 s h

  -- A node with an address sent its claims, has no discovery response to give and has just sent a
  -- heartbeat. Its next tick sends another one if it is 30 seconds later or after that, and if it is
  -- earlier goes on with the entities instead. But after a heartbeat in the last 30 seconds before
  -- the 32-bit clock is back at zero the next tick sends another one at once, if it is before that.
  -- The tick first expires the nodes that are not heard of any more.
  pub heartbeat_period :
      (now later : ℕ) (s : Sys W)
      → HasClaimed s.node
      → now ≤ later
      → later < 2 ^ 32
      → let t = send_heartbeat env address now s in
        let expired = expire_offline env later t in
        (((2 ^ 32 ≤ now + 30000) ⊎ (now + 30000 ≤ later))
          × (tick env later t ≡ send_heartbeat env address later expired))
        ⊎ ((now + 30000 < 2 ^ 32)
            × (later < now + 30000)
            × (tick env later t ≡ tick_entities env expired))
  unfolding tick_assigned
  heartbeat_period now later s h past clock =
      let t = send_heartbeat env address now s in
      let u = expire_offline env later t in
      let (claimed, due_at) =
        Due-expire_offline later t.node.next_heartbeat_ms t
          (HasClaimed-send_heartbeat now s h, refl) in
      let step = tick-claimed later t claimed in
      elim (heartbeat_due now later s past clock) [
        | inl (due, e) ↦ inl (due, step ∙ ground (arith, claimed.3, due_at, e))
        | inr (a, b, e) ↦ inr (a, b, step ∙ ground (arith, claimed.3, due_at, e))
      ]
