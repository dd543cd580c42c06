-- ===== src/Runtime/Directory.antt =====
-- The entity directory, the nodes seen on the bus and the addresses allocated.
pub mod Addresses
pub mod Expiry
pub mod Expired
pub mod Entities
use esphome_hacan.Base.{
  ℕ, zero, suc, ◌+◌, ◌-◌, ◌^◌, Bool, false, not, ◌&&◌, ◌||◌, Option, none, some, List, [], ◌∷◌, ltb,
  ◌==◌, if◌then◌else◌, Bytes8, u32, find_slot, fill_slot, replace_slot,
}
use esphome_hacan.Runtime.Env.{Env, entity_available, entity_unavailable}
use esphome_hacan.Runtime.Uid.{u32_le}
use esphome_hacan.Runtime.Node.{Node, Sys, EntityLocation, store}

unfoldable pub resolve : ℕ → Node → Option EntityLocation
resolve entity n = find_slot (λ e. e.entity == entity) n.entities

unfoldable pub is_online : ℕ → Node → Bool
is_online address n = not (address == 0) && not (address == 0x1ff) && n.seen address

-- The endpoint's entity among those the node owns, if the source is the node itself.
unfoldable pub own_entity_for : ℕ → ℕ → Node → Option ℕ
own_entity_for source endpoint n = elim n.address [
  | none ↦ none
  | some address ↦
      if source == address
      then elim (find_slot (λ o. o.endpoint == endpoint) n.owned_entities) [
        | none ↦ none
        | some owned ↦ some owned.entity
      ]
      else none
]

unfoldable pub entity_for : ℕ → ℕ → Node → Option ℕ
entity_for source endpoint n = elim (own_entity_for source endpoint n) [
  | some entity ↦ some entity
  | none ↦ elim (find_slot (λ e. e.node == source && e.endpoint == endpoint) n.entities) [
    | none ↦ none
    | some entry ↦ some entry.entity
  ]
]

-- The loop of `next_free_address` at `value`, with `left` rounds to go.
unfoldable pub next_free_from : ℕ → ℕ → (ℕ → Bool) → Option ℕ
next_free_from zero value allocated = none
next_free_from (suc left) value allocated =
    let rest = next_free_from left (suc value) allocated in
    if not (allocated value) then some value else rest

-- `for (value = 1; value < 0x1FF; ++value)`
unfoldable pub next_free_address : Node → Option ℕ
next_free_address n = next_free_from 510 1 n.allocated

unfoldable pub withdraw_address : Node → Node
withdraw_address n = record n {
  address = none;
  next_heartbeat_ms = 0;
  claims_sent = 0;
  claim_schedule_initialized = false;
}

abbrev pub offline_after_ms : ℕ
offline_after_ms = 105000

-- `now_ms - last_seen_[source]` in 32 bits.
abbrev pub elapsed : ℕ → ℕ → ℕ
elapsed now then_ms = u32 (now + 2 ^ 32 - then_ms)

module _ {W : Type 0} (env : Env W) where
  unfoldable pub learn_entity : ℕ → Bytes8 → Sys W → Sys W
  learn_entity source bytes s =
      let value = u32_le bytes.b2 bytes.b3 bytes.b4 bytes.b5 in
      let location : EntityLocation = record {
        entity = value;
        node = source;
        endpoint = bytes.b1;
      } in
      let n = s.node in
      elim (find_slot (λ e. e.entity == value) n.entities) [
        | some entry ↦ if entry.node == source && entry.endpoint == bytes.b1 then s else record {
          node = record n {
            entities = replace_slot (λ e. e.entity == value) (λ e. none) n.entities;
          };
          world = entity_unavailable env value s.world;
        }
        | none ↦ elim (fill_slot location n.entities) [
          | none ↦ s
          | some slots ↦ record {
            node = record n { entities = slots };
            world = entity_available env value source bytes.b1 s.world;
          }
        ]
      ]

  -- The inner loop of `expire_offline`: the entities of a node go, one by one.
  unfoldable pub expire_entities :
      ℕ → List (Option EntityLocation) → W → List (Option EntityLocation) × W
  expire_entities source [] w = ([], w)
  expire_entities source (none ∷ slots) w =
      let (rest, w') = expire_entities source slots w in (none ∷ rest, w')
  expire_entities source (some entry ∷ slots) w =
      let gone = entry.node == source in
      let (rest, w') =
        expire_entities source slots (if gone then entity_unavailable env entry.entity w else w) in
      ((if gone then none else some entry) ∷ rest, w')

  -- One round of the outer loop.
  unfoldable pub expire_source : ℕ → ℕ → Sys W → Sys W
  expire_source now source s =
      let n = s.node in
      if not (n.seen source) || ltb (elapsed now (n.last_seen source)) offline_after_ms
      then s
      else let (slots, w) = expire_entities source n.entities s.world in
        record { node = record n { seen = store source false n.seen; entities = slots }; world = w }

  unfoldable pub expire_from : ℕ → ℕ → ℕ → Sys W → Sys W
  expire_from zero now source s = s
  expire_from (suc left) now source s =
      expire_from left now (suc source) (expire_source now source s)

  -- `for (source = 1; source < 0x1FF; ++source)`
  unfoldable pub expire_offline : ℕ → Sys W → Sys W
  expire_offline now = expire_from 510 now 1
