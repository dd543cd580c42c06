-- ===== src/Runtime/Directory/Expired.antt =====
-- What the expiry leaves in the directory.
use esphome_hacan.Base.{
  ℕ, zero, suc, ◌+◌, ◌<◌, ◌≡◌, ◌==◌, refl, subst, inl, inr, Bool, not, ◌&&◌, Option, some, none,
  List, [], ◌∷◌, if◌then◌else◌, ltb, leb, arith, Option-cases, Bool-cases, find_slot, Distinct,
}
use esphome_hacan.Runtime.Env.{Env, entity_unavailable}
use esphome_hacan.Runtime.Node.{Node, Sys, EntityLocation}
use esphome_hacan.Runtime.Sound.{same_entity}
use esphome_hacan.Runtime.Sound.Ticking.{find_slot-expire_entities, expire_entities-Distinct}
use esphome_hacan.Runtime.Directory.{
  is_online, resolve, elapsed, offline_after_ms, expire_entities, expire_source, expire_from,
  expire_offline,
}
use esphome_hacan.Runtime.Directory.Expiry.{
  heard_lately, expire_source-last_seen, expire_source-others, is_online-expire_offline,
}

-- A location is kept unless the test holds of its node.
abbrev pub kept_unless : (ℕ → Bool) → Option EntityLocation → Option EntityLocation
kept_unless gone none = none
kept_unless gone (some e) = if gone e.node then none else some e

-- The node was heard of, and not in the last 105 seconds.
abbrev pub is_silent : ℕ → Node → ℕ → Bool
is_silent now n source =
    n.seen source && not (ltb (elapsed now (n.last_seen source)) offline_after_ms)

module _ {W : Type 0} (env : Env W) (entity : ℕ) where
  find_slot-expire_entities_kept :
      (source : ℕ) (slots : List (Option EntityLocation)) (w : W)
      → Distinct same_entity slots
      → find_slot (λ e. e.entity == entity) (expire_entities env source slots w).0
        ≡ kept_unless (λ node. node == source) (find_slot (λ e. e.entity == entity) slots)
  unfolding find_slot expire_entities
  find_slot-expire_entities_kept source [] w d = refl
  find_slot-expire_entities_kept source (none ∷ slots) w d =
      find_slot-expire_entities_kept source slots w d
  find_slot-expire_entities_kept source (some e ∷ slots) w d =
      let w' = if e.node == source then entity_unavailable env e.entity w else w in
      elim (Bool-cases (e.entity == entity)) [
        | inl here ↦
            let same : e.entity ≡ entity = ground arith in
            let last =
              subst
                (λ k. find_slot (λ f. f.entity == k) (expire_entities env source slots w').0 ≡ none)
                same (find_slot-expire_entities env (same_entity e) source slots w' d.0) in
            ground (arith, here, last)
        | inr there ↦ ground (arith, there, find_slot-expire_entities_kept source slots w' d.1)
      ]

  module _ (now : ℕ) where
    resolve-expire_source :
        (source : ℕ) (s : Sys W)
        → Distinct same_entity s.node.entities
        → resolve entity (expire_source env now source s).node
          ≡ kept_unless
              (λ node. node == source && is_silent now s.node node)
              (resolve entity s.node)
    unfolding resolve expire_source
    resolve-expire_source source s d =
        let kept = find_slot-expire_entities_kept source s.node.entities s.world d in
        elim (Option-cases (find_slot (λ e. e.entity == entity) s.node.entities)) [
          | inl unknown ↦ ground (arith, unknown, kept)
          | inr (e, known) ↦ ground (arith, known, kept)
        ]

    expire_source-Distinct :
        (source : ℕ) (s : Sys W)
        → Distinct same_entity s.node.entities
        → Distinct same_entity (expire_source env now source s).node.entities
    unfolding expire_source
    expire_source-Distinct source s d =
        ground (arith, expire_entities-Distinct env source s.node.entities s.world d)

    resolve-expire_from :
        (left source : ℕ) (s : Sys W)
        → Distinct same_entity s.node.entities
        → resolve entity (expire_from env left now source s).node
          ≡ kept_unless
              (λ node. leb source node && ltb node (source + left) && is_silent now s.node node)
              (resolve entity s.node)
    unfolding expire_from
    resolve-expire_from zero source s d = elim (Option-cases (resolve entity s.node)) [
      | inl unknown ↦ ground (arith, unknown)
      | inr (e, known) ↦ ground (arith, known)
    ]
    resolve-expire_from (suc left) source s d =
        let s' = expire_source env now source s in
        let rest = resolve-expire_from left (suc source) s' (expire_source-Distinct source s d) in
        let first = resolve-expire_source source s d in
        elim (Option-cases (resolve entity s.node)) [
          | inl unknown ↦ ground (arith, unknown, first, rest)
          | inr (e, known) ↦ elim (Bool-cases (e.node == source)) [
            | inl here ↦ ground (arith, known, here, first, rest)
            | inr there ↦ ground (
              arith,
              known,
              there,
              first,
              rest,
              expire_source-last_seen env now source s,
              expire_source-others env now source e.node s,
            )
          ]
        ]

-- In a directory with one entry for each entity, an entity is resolved after the expiry as before, unless its node, at an
-- address from 1 to 0x1FE, was heard of and its last frame is 105 seconds old or more on the 32-bit
-- clock: then it is not resolved any more.
pub resolve-expire_offline :
    {W : Type 0} (env : Env W) (now entity : ℕ) (s : Sys W)
    → Distinct same_entity s.node.entities
    → resolve entity (expire_offline env now s).node
      ≡ kept_unless
          (λ node. leb 1 node && ltb node 0x1ff && is_silent now s.node node)
          (resolve entity s.node)
unfolding expire_offline
resolve-expire_offline env now entity s d = resolve-expire_from env entity now 510 1 s d

-- The directory has one entry for each entity. After the expiry that starts each tick, a node at an
-- address from 1 to 0x1FE is online exactly if it was heard of and its last frame is less than 105 seconds old on the 32-bit clock, and an entity is resolved as
-- before unless its node, at such an address, was heard of and is not online any more.
pub expire_offline_decided :
    {W : Type 0} (env : Env W) (now address entity : ℕ) (s : Sys W)
    → 0 < address
    → address < 0x1ff
    → Distinct same_entity s.node.entities
    → let t = expire_offline env now s in
      (is_online address t.node ≡ heard_lately now address s.node)
      × (resolve entity t.node
          ≡ kept_unless
              (λ node. leb 1 node && ltb node 0x1ff && is_silent now s.node node)
              (resolve entity s.node))
expire_offline_decided env now address entity s low high d =
    (is_online-expire_offline env now address s low high, resolve-expire_offline env now entity s d)
