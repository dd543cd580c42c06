-- ===== src/Runtime/Tick/Quiet.antt =====
-- The ticks of a node that has nothing of its own to send.
use esphome_hacan.Base.{
  ℕ, zero, suc, ◌≤◌, ◌<◌, ◌≡◌, refl, ap, sym, subst, inl, inr, Bool, true, Option, none, List, [],
  ◌∷◌, arith, length, Option-cases, Bool-cases, not, ◌||◌, ltb, false,
}
use esphome_hacan.Runtime.Env.{Env}
use esphome_hacan.Runtime.Node.{Node, Sys, EntityLocation, store}
use esphome_hacan.Runtime.Settled.{settled}
use esphome_hacan.Runtime.Directory.{
  elapsed, offline_after_ms, expire_entities, expire_source, expire_from, expire_offline,
}
use esphome_hacan.Runtime.Transmit.{drain_one}
use esphome_hacan.Runtime.Tick.{
  entry_at, skip_from, skip_empty, init_claim_schedule, claimed, resolve_next, skip_owned,
  tick_entities, tick_assigned, tick_scheduled, tick,
}

-- The node sent its claims and spoke for all its entities, no discovery response is due, and the
-- next heartbeat is not due before the time.
abbrev pub IsQuiet : ℕ → Node → Type 0
IsQuiet until n =
    (n.pending_discovery_response ≡ none)
    × (claimed n ≡ true)
    × (n.claim_schedule_initialized ≡ true)
    × (length n.owned_entities ≤ n.owned_claim_index)
    × (length n.observed_entities ≤ n.observed_resolve_index)
    × (until ≤ n.next_heartbeat_ms)

pub IsQuiet-of_settled :
    (until : ℕ) (m n : Node) → settled m ≡ settled n → IsQuiet until n → IsQuiet until m
unfolding settled
IsQuiet-of_settled until m n e quiet = subst (λ (k : Node). IsQuiet until k) (sym e) quiet

entry_at_end {ℓ} :
    {A : Type ℓ} (slots : List (Option A)) (index : ℕ)
    → length slots ≤ index
    → entry_at slots index ≡ none
entry_at_end [] index h = refl
entry_at_end (slot ∷ slots) zero h = absurd (omega arith)
entry_at_end (slot ∷ slots) (suc index) h = entry_at_end slots index (omega arith)

skip_empty_end {ℓ} :
    {A : Type ℓ} (index : ℕ) (slots : List (Option A))
    → length slots ≤ index
    → skip_empty index slots ≡ index
unfolding skip_empty skip_from
skip_empty_end index slots h = ground arith

skip_owned_end : (until : ℕ) (n : Node) → IsQuiet until n → skip_owned n ≡ n
unfolding skip_owned
skip_owned_end until n quiet =
    ap (λ i. record n { owned_claim_index = i })
      (skip_empty_end n.owned_claim_index n.owned_entities quiet.3)

resolve_next_end : (until : ℕ) (n : Node) → IsQuiet until n → resolve_next n ≡ n
unfolding resolve_next
resolve_next_end until n quiet = ground (
  arith,
  quiet,
  skip_empty_end n.observed_resolve_index n.observed_entities quiet.4,
  entry_at_end n.observed_entities n.observed_resolve_index quiet.4,
)

module _ {W : Type 0} (env : Env W) where
  tick_entities-quiet :
      (until : ℕ) (s : Sys W) → IsQuiet until s.node → tick_entities env s ≡ (drain_one env s).0
  unfolding tick_entities
  tick_entities-quiet until s quiet =
      let n = s.node in
      let spoken = entry_at_end n.owned_entities n.owned_claim_index quiet.3 in
      ground (arith, skip_owned_end until n quiet, resolve_next_end until n quiet, spoken)

  tick_scheduled-quiet :
      (until now : ℕ) (s : Sys W)
      → IsQuiet until s.node
      → now < until
      → tick_scheduled env now s ≡ (drain_one env s).0
  unfolding tick_scheduled init_claim_schedule tick_assigned
  tick_scheduled-quiet until now s quiet early = elim (Option-cases s.node.address) [
    | inl e ↦ absurd (ground (arith, quiet, e))
    | inr (a, e) ↦ ground (arith, e, quiet, early, tick_entities-quiet until s quiet)
  ]

  pub tick-quiet :
      (until now : ℕ) (s : Sys W)
      → IsQuiet until (expire_offline env now s).node
      → now < until
      → tick env now s ≡ (drain_one env (expire_offline env now s)).0
  unfolding tick
  tick-quiet until now s quiet early =
      let t = expire_offline env now s in
      simp (quiet.0, tick) (tick_scheduled-quiet until now t quiet early)

  expire_source-keeps :
      (P : Node → Type 0)
      → ((n : Node) (seen : ℕ → Bool) (entities : List (Option EntityLocation))
          → P n
          → P (record n { seen = seen; entities = entities }))
      → (now source : ℕ) (s : Sys W) → P s.node
      → P (expire_source env now source s).node
  unfolding expire_source
  expire_source-keeps P keeps now source s p =
      let n = s.node in
      let gone =
        keeps n (store source false n.seen) (expire_entities env source n.entities s.world).0 p in
      elim (Bool-cases
        (not (n.seen source) || ltb (elapsed now (n.last_seen source)) offline_after_ms)) [
          | inl here ↦ simp here p
          | inr there ↦ simp there gone
        ]

  -- What does not depend on who is online or known outlives the expiry.
  pub expire_from-keeps :
      (P : Node → Type 0)
      → ((n : Node) (seen : ℕ → Bool) (entities : List (Option EntityLocation))
          → P n
          → P (record n { seen = seen; entities = entities }))
      → (left now source : ℕ) (s : Sys W) → P s.node
      → P (expire_from env left now source s).node
  unfolding expire_from
  expire_from-keeps P keeps zero now source s p = p
  expire_from-keeps P keeps (suc left) now source s p =
      expire_from-keeps P keeps left now (suc source) (expire_source env now source s)
        (expire_source-keeps P keeps now source s p)

  -- One tick after another.
  abbrev pub run_ticks : List ℕ → Sys W → Sys W
  run_ticks [] s = s
  run_ticks (now ∷ times) s = run_ticks times (tick env now s)
