-- ===== src/Runtime/Tick.antt =====
-- `NodeRuntime::tick`. The statements of the function are functions here, each with the rest of
-- the tick below it.
pub mod Period
pub mod Skip
pub mod Fits
pub mod Quiet
pub mod Emptied
pub mod Announced
pub mod Spoken
pub mod Speaking
pub mod Started
pub mod Startup
use esphome_hacan.Base.{
  ℕ, zero, suc, ◌+◌, ◌-◌, Bool, true, false, ◌&&◌, Option, none, some, List, leb, ltb, ◌==◌,
  if◌then◌else◌, get_elem?, length, u8, u32,
}
use esphome_hacan.Runtime.Env.{Env}
use esphome_hacan.Runtime.Uid.{claim_start_delay}
use esphome_hacan.Runtime.Node.{Node, Sys, EntityLocation}
use esphome_hacan.Runtime.Directory.{expire_offline}
use esphome_hacan.Runtime.Transmit.{drain_one}
use esphome_hacan.Runtime.Send.{
  send_discovery_response, send_discovery_request, send_claim, send_heartbeat, send_entity_claim,
  send_entity_resolve,
}

-- The entry of a slot, if the index is in range and the slot is filled.
abbrev pub entry_at {ℓ} : {A : Type ℓ} → List (Option A) → ℕ → Option A
entry_at slots index = elim (get_elem? slots index) [ none ↦ none | some slot ↦ slot ]

-- `while (index < slots.size() && !slots[index]) ++index;` with `left` slots from the index on.
unfoldable pub skip_from {ℓ} : {A : Type ℓ} → ℕ → ℕ → List (Option A) → ℕ
skip_from zero index slots = index
skip_from (suc left) index slots =
    let rest = skip_from left (suc index) slots in
    elim (entry_at slots index) [ none ↦ rest | some entry ↦ index ]

unfoldable pub skip_empty {ℓ} : {A : Type ℓ} → ℕ → List (Option A) → ℕ
skip_empty index slots = skip_from (length slots - index) index slots

-- The claims are under way or the schedule is set: the start is random for each node.
unfoldable pub init_claim_schedule : ℕ → Node → Node
init_claim_schedule now n = elim n.address [
  | none ↦ n
  | some address ↦ if n.claim_schedule_initialized then n else record n {
    next_claim_ms = u32 (now + claim_start_delay n.uid);
    claim_schedule_initialized = true;
  }
]

-- Both claims are sent: the node may speak for its entities.
abbrev pub claimed : Node → Bool
claimed n = elim n.address [ none ↦ false | some address ↦ n.claims_sent == 2 ]

unfoldable pub resolve_next : Node → Node
resolve_next n0 =
    let n : Node = record n0 {
      observed_resolve_index = skip_empty n0.observed_resolve_index n0.observed_entities;
    } in
    if claimed n
    then elim (entry_at n.observed_entities n.observed_resolve_index) [
      | none ↦ n
      | some entity ↦
          send_entity_resolve entity
            (record n { observed_resolve_index = u8 (n.observed_resolve_index + 1) })
    ]
    else n

unfoldable pub skip_owned : Node → Node
skip_owned n = record n { owned_claim_index = skip_empty n.owned_claim_index n.owned_entities }

-- The owned entity whose claim is next, after the skip.
abbrev pub next_owned : Node → Option EntityLocation
next_owned n = if claimed n then entry_at n.owned_entities n.owned_claim_index else none

unfoldable pub claim_owned : EntityLocation → Node → Node
claim_owned owned n =
    send_entity_claim owned.entity owned.endpoint
      (record n { owned_claim_index = u8 (n.owned_claim_index + 1) })

module _ {W : Type 0} (env : Env W) where
  -- `drain_one(); return;` after a change of the node.
  abbrev drained : Node → Sys W → Sys W
  drained n s = (drain_one env (record s { node = n })).0

  -- From the loop over the owned entities on.
  unfoldable pub tick_entities : Sys W → Sys W
  tick_entities s =
      let n = skip_owned s.node in
      elim (next_owned n) [
        | some owned ↦ drained (claim_owned owned n) s
        | none ↦ drained (resolve_next n) s
      ]

  -- With an address: the two claims, the heartbeat, then the entities.
  unfoldable pub tick_assigned : ℕ → ℕ → Sys W → Sys W
  tick_assigned address now s =
      let n = s.node in
      if ltb n.claims_sent 2 && leb n.next_claim_ms now
      then drained (send_claim n) s
      else if n.claims_sent == 2 && leb n.next_heartbeat_ms now
      then send_heartbeat env address now s
      else tick_entities s

  -- Without an address: the discovery request, then the entities.
  unfoldable pub tick_unassigned : ℕ → Sys W → Sys W
  tick_unassigned now s =
      if leb s.node.next_discovery_ms now
      then drained (send_discovery_request now s.node) s
      else tick_entities s

  -- From the claim schedule on.
  unfoldable pub tick_scheduled : ℕ → Sys W → Sys W
  tick_scheduled now s0 =
      let s : Sys W = record s0 { node = init_claim_schedule now s0.node } in
      elim s.node.address [
        | none ↦ tick_unassigned now s
        | some address ↦ tick_assigned address now s
      ]

  unfoldable pub tick : ℕ → Sys W → Sys W
  tick now s0 =
      let s = expire_offline env now s0 in
      elim s.node.pending_discovery_response [
        | none ↦ tick_scheduled now s
        | some pending ↦
            if leb pending.due_ms now
            then (let n = send_discovery_response pending.transaction pending.requester s.node in
                drained (record n { pending_discovery_response = none }) s)
            else tick_scheduled now s
      ]
