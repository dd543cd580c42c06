-- ===== src/Runtime/Sound/Ticking.antt =====
-- A tick leaves the runtime sound.
use esphome_hacan.Base.{
  ℕ, zero, suc, ◌+◌, ◌≡◌, ◌==◌, u8, refl, inl, inr, Bool, some, none, Option, List, [], ◌∷◌, arith,
  Option-cases, Bool-cases, if◌then◌else◌, find_slot, Distinct,
}
use esphome_hacan.Runtime.Env.{Env, entity_unavailable}
use esphome_hacan.Runtime.Node.{Node, Sys, EntityLocation}
use esphome_hacan.Runtime.Directory.{expire_entities, expire_source, expire_from, expire_offline}
use esphome_hacan.Runtime.Settled.{settled-send_entity_claim}
use esphome_hacan.Runtime.Send.{
  send_claim, send_entity_claim, send_discovery_request, send_discovery_response,
}
use esphome_hacan.Runtime.Tick.{
  skip_empty, entry_at, init_claim_schedule, resolve_next, skip_owned, next_owned, claim_owned,
  tick_entities, tick_assigned, tick_unassigned, tick_scheduled, tick,
}
use esphome_hacan.Runtime.Sound.{IsSound, IsSound-of_settled, same_entity}
use esphome_hacan.Runtime.Sound.Sending.{
  send_entity_resolve-IsSound, send_discovery_response-IsSound, send_discovery_request-IsSound,
  send_claim-IsSound, drain_one-IsSound, send_heartbeat-IsSound,
}

send_entity_claim-IsSound :
    (entity endpoint : ℕ) (n : Node) → IsSound n → IsSound (send_entity_claim entity endpoint n)
send_entity_claim-IsSound entity endpoint n sound =
    IsSound-of_settled _ n (settled-send_entity_claim entity endpoint n) sound

resolve_next-IsSound : (n : Node) → IsSound n → IsSound (resolve_next n)
unfolding resolve_next
resolve_next-IsSound n sound =
    let index = skip_empty n.observed_resolve_index n.observed_entities in
    elim (Option-cases (entry_at n.observed_entities index)) [
      | inl e ↦ ground arith
      | inr (entity, e) ↦
          let n' : Node = record n { observed_resolve_index = u8 (index + 1) } in
          ground (arith, send_entity_resolve-IsSound entity n' sound)
    ]

init_claim_schedule-IsSound : (now : ℕ) (n : Node) → IsSound n → IsSound (init_claim_schedule now n)
unfolding init_claim_schedule
init_claim_schedule-IsSound now n sound = elim (Option-cases n.address) [
  | inl e ↦ ground arith
  | inr (a, e) ↦ ground arith
]

module _ {W : Type 0} (env : Env W) where
  pub find_slot-expire_entities :
      (test : EntityLocation → Bool) (source : ℕ) (slots : List (Option EntityLocation)) (w : W)
      → find_slot test slots ≡ none
      → find_slot test (expire_entities env source slots w).0 ≡ none
  unfolding find_slot expire_entities
  find_slot-expire_entities test source [] w f = refl
  find_slot-expire_entities test source (none ∷ slots) w f =
      find_slot-expire_entities test source slots w f
  find_slot-expire_entities test source (some entry ∷ slots) w f =
      let gone = entry.node == source in
      let w' = if gone then entity_unavailable env entry.entity w else w in
      ground (arith, find_slot-expire_entities test source slots w')

  pub expire_entities-Distinct :
      (source : ℕ) (slots : List (Option EntityLocation)) (w : W)
      → Distinct same_entity slots
      → Distinct same_entity (expire_entities env source slots w).0
  unfolding expire_entities
  expire_entities-Distinct source [] w d = d
  expire_entities-Distinct source (none ∷ slots) w d = expire_entities-Distinct source slots w d
  expire_entities-Distinct source (some entry ∷ slots) w d =
      let gone = entry.node == source in
      let w' = if gone then entity_unavailable env entry.entity w else w in
      let rest = expire_entities-Distinct source slots w' d.1 in
      let apart = find_slot-expire_entities (same_entity entry) source slots w' d.0 in
      elim (Bool-cases gone) [
        | inl leaves ↦ ground (arith, leaves, rest)
        | inr stays ↦ ground (arith, stays, rest, apart)
      ]

  expire_source-IsSound :
      (now source : ℕ) (s : Sys W) → IsSound s.node → IsSound (expire_source env now source s).node
  unfolding expire_source
  expire_source-IsSound now source s sound =
      ground (arith, expire_entities-Distinct source s.node.entities s.world sound.2)

  expire_from-IsSound :
      (left now source : ℕ) (s : Sys W)
      → IsSound s.node
      → IsSound (expire_from env left now source s).node
  unfolding expire_from
  expire_from-IsSound zero now source s sound = sound
  expire_from-IsSound (suc left) now source s sound =
      expire_from-IsSound left now (suc source) (expire_source env now source s)
        (expire_source-IsSound now source s sound)

  tick_entities-IsSound : (s : Sys W) → IsSound s.node → IsSound (tick_entities env s).node
  unfolding tick_entities skip_owned claim_owned
  tick_entities-IsSound s sound = elim (Option-cases (next_owned (skip_owned s.node))) [
    | inl e ↦
        simp (e, tick_entities)
          (drain_one-IsSound env _ (resolve_next-IsSound (skip_owned s.node) sound))
    | inr (owned, e) ↦
        simp (e, tick_entities)
          (drain_one-IsSound env _ (send_entity_claim-IsSound owned.entity owned.endpoint _ sound))
  ]

  tick_assigned-IsSound :
      (address now : ℕ) (s : Sys W)
      → s.node.address ≡ some address
      → IsSound s.node
      → IsSound (tick_assigned env address now s).node
  unfolding tick_assigned
  tick_assigned-IsSound address now s own sound =
      let n = s.node in
      ground (
        arith,
        drain_one-IsSound env (record s { node = send_claim n }),
        send_claim-IsSound n address own,
        send_heartbeat-IsSound env address now s sound,
        tick_entities-IsSound s sound,
      )

  tick_unassigned-IsSound :
      (now : ℕ) (s : Sys W) → IsSound s.node → IsSound (tick_unassigned env now s).node
  unfolding tick_unassigned
  tick_unassigned-IsSound now s sound =
      let n = s.node in
      ground (
        arith,
        drain_one-IsSound env (record s { node = send_discovery_request now n })
            (send_discovery_request-IsSound now n sound),
        tick_entities-IsSound s sound,
      )

  tick_scheduled-IsSound :
      (now : ℕ) (s : Sys W) → IsSound s.node → IsSound (tick_scheduled env now s).node
  unfolding tick_scheduled
  tick_scheduled-IsSound now s sound =
      let s' : Sys W = record s { node = init_claim_schedule now s.node } in
      let sound' : IsSound s'.node = init_claim_schedule-IsSound now s.node sound in
      elim (Option-cases s'.node.address) [
        | inl e ↦ simp (e, tick_scheduled) (tick_unassigned-IsSound now s' sound')
        | inr (a, e) ↦ simp (e, tick_scheduled) (tick_assigned-IsSound a now s' e sound')
      ]

  pub tick-IsSound : (now : ℕ) (s : Sys W) → IsSound s.node → IsSound (tick env now s).node
  unfolding tick expire_offline
  tick-IsSound now s0 sound0 =
      let s = expire_offline env now s0 in
      let sound : IsSound s.node = expire_from-IsSound 510 now 1 s0 sound0 in
      elim (Option-cases s.node.pending_discovery_response) [
        | inl e ↦ ground (arith, tick_scheduled-IsSound now s sound)
        | inr (pending, e) ↦
            let n = send_discovery_response pending.transaction pending.requester s.node in
            let sound' : IsSound n = send_discovery_response-IsSound _ _ s.node sound in
            ground (
              arith,
              tick_scheduled-IsSound now s sound,
              drain_one-IsSound env
                  (record s { node = record n { pending_discovery_response = none } }) sound',
            )
      ]
