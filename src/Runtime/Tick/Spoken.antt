-- ===== src/Runtime/Tick/Spoken.antt =====
-- The tick in which an assigned node speaks for an entity.
use esphome_hacan.Base.{
  ℕ, ◌+◌, ◌≤◌, ◌<◌, ◌≡◌, refl, ap, true, none, some, List, [], ◌∷◌, ◌++◌, arith, length, packed, u8,
}
use esphome_hacan.FrameCodec.{RawCanFrame}
use esphome_hacan.Runtime.Env.{Env}
use esphome_hacan.Runtime.Node.{Node, Sys, EntityLocation}
use esphome_hacan.Runtime.Directory.{expire_offline}
use esphome_hacan.Runtime.Transmit.{QueueName, drain, drain_first, drain_one}
use esphome_hacan.Runtime.Transmit.Backlog.{backlog, QueuesFit}
use esphome_hacan.Runtime.Tick.{
  entry_at, skip_owned, claim_owned, init_claim_schedule, tick_entities, tick_assigned,
  tick_scheduled, tick,
}
use esphome_hacan.Runtime.Tick.Quiet.{expire_from-keeps}
use esphome_hacan.Runtime.Tick.Announced.{entity_raw, entry_at-packed, skip_empty_filled}

-- A node at address `a` with nothing to send, whose claims are sent and whose next heartbeat is not
-- due before the time. It has spoken for the first entities of its array and not for the others.
pub record Speaks (until a sequence : ℕ) (done os : List EntityLocation) (k : ℕ) (n : Node)
    : Type 0 where
  pub quiet : n.pending_discovery_response ≡ none
  pub own : n.address ≡ some a
  pub claims : n.claims_sent ≡ 2
  pub scheduled : n.claim_schedule_initialized ≡ true
  pub early : until ≤ n.next_heartbeat_ms
  pub spoken : n.owned_claim_index ≡ length done
  pub numbered : n.sequence ≡ sequence
  pub owned : n.owned_entities ≡ packed (done ++ os) k
  pub fits : QueuesFit n
  pub idle : backlog n ≡ []

-- The frames that speak for the entities, with consecutive sequence numbers.
abbrev pub entity_claims : ℕ → ℕ → List EntityLocation → List RawCanFrame
entity_claims a sequence [] = []
entity_claims a sequence (o ∷ os) = entity_raw a sequence o ∷ entity_claims a (u8 (sequence + 1)) os

module _ {W : Type 0} (env : Env W) where
  with_queue-sequence :
      (name : QueueName) (s : Sys W) → (drain env name s).0.node.sequence ≡ s.node.sequence
  unfolding drain
  with_queue-sequence QueueName.control s = ground arith
  with_queue-sequence QueueName.event s = ground arith
  with_queue-sequence QueueName.state s = ground arith
  with_queue-sequence QueueName.management s = ground arith
  with_queue-sequence QueueName.diagnostic s = ground arith

  drain_first-sequence :
      (names : List QueueName) (s : Sys W)
      → (drain_first env names s).0.node.sequence ≡ s.node.sequence
  unfolding drain_first
  drain_first-sequence [] s = refl
  drain_first-sequence (name ∷ names) s =
      ground (arith, with_queue-sequence name s, drain_first-sequence names (drain env name s).0)

  pub drain_one-sequence : (s : Sys W) → (drain_one env s).0.node.sequence ≡ s.node.sequence
  unfolding drain_one
  drain_one-sequence s = drain_first-sequence _ s

  -- The node after the claim, before it is sent.
  abbrev claimed_sys : EntityLocation → Sys W → Sys W
  claimed_sys o s = record s { node = claim_owned o s.node }

  tick_entities_step :
      (until a sequence k : ℕ) (done os : List EntityLocation) (o : EntityLocation) (s : Sys W)
      → Speaks until a sequence done (o ∷ os) k s.node
      → tick_entities env s ≡ (drain_one env (claimed_sys o s)).0
  unfolding tick_entities skip_owned
  tick_entities_step until a sequence k done os o s h =
      let n = s.node in
      let next : entry_at n.owned_entities n.owned_claim_index ≡ some o =
        simp (h.owned, h.spoken) (entry_at-packed done os o k) in
      let still : skip_owned n ≡ n =
        ap (λ i. record n { owned_claim_index = i })
          (skip_empty_filled n.owned_claim_index n.owned_entities o next) in
      ground (arith, still, next, h.own, h.claims)

  tick_scheduled_step :
      (until a sequence k now : ℕ) (done os : List EntityLocation) (o : EntityLocation) (s : Sys W)
      → Speaks until a sequence done (o ∷ os) k s.node
      → now < until
      → tick_scheduled env now s ≡ (drain_one env (claimed_sys o s)).0
  unfolding tick_scheduled init_claim_schedule tick_assigned
  tick_scheduled_step until a sequence k now done os o s h soon = ground (
    arith,
    h.own,
    h.claims,
    h.scheduled,
    h.early,
    soon,
    tick_entities_step until a sequence k done os o s h,
  )

  pub tick_step :
      (until a sequence k now : ℕ) (done os : List EntityLocation) (o : EntityLocation) (s : Sys W)
      → Speaks until a sequence done (o ∷ os) k (expire_offline env now s).node
      → now < until
      → tick env now s ≡ (drain_one env (claimed_sys o (expire_offline env now s))).0
  unfolding tick
  tick_step until a sequence k now done os o s h soon =
      let t = expire_offline env now s in
      simp (h.quiet, tick) (tick_scheduled_step until a sequence k now done os o t h soon)

  pub Speaks-expire_offline :
      (until a sequence k now : ℕ) (done os : List EntityLocation) (s : Sys W)
      → Speaks until a sequence done os k s.node
      → Speaks until a sequence done os k (expire_offline env now s).node
  unfolding expire_offline
  Speaks-expire_offline until a sequence k now done os s h =
      expire_from-keeps env (Speaks until a sequence done os k)
        (λ n seen entities g. record {
          quiet = g.quiet;
          own = g.own;
          claims = g.claims;
          scheduled = g.scheduled;
          early = g.early;
          spoken = g.spoken;
          numbered = g.numbered;
          owned = g.owned;
          fits = g.fits;
          idle = g.idle;
        })
        510 now 1 s h
