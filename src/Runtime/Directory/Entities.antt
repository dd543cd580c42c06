-- ===== src/Runtime/Directory/Entities.antt =====
-- The directory as a map from entities to locations: what a claim and the expiry make of it.
use esphome_hacan.Base.{
  ℕ, zero, suc, ◌≡◌, ◌≢◌, ◌==◌, refl, subst, inl, inr, Bool, ◌&&◌, Option, some, none, List, [],
  ◌∷◌, if◌then◌else◌, arith, Bytes8, Option-cases, Bool-cases, find_slot, fill_slot, replace_slot,
  room, fill_slot_room, Distinct, find_slot-fill_slot,
}
use esphome_hacan.Runtime.Env.{Env}
use esphome_hacan.Runtime.Uid.{u32_le}
use esphome_hacan.Runtime.Node.{Sys, EntityLocation}
use esphome_hacan.Runtime.Sound.{same_entity}
use esphome_hacan.Runtime.Directory.{resolve, learn_entity}

-- What the directory holds for an entity that is claimed for a location, from what it held.
abbrev pub after_claim : EntityLocation → ℕ → Option EntityLocation → Option EntityLocation
after_claim new left (some old) =
    if old.node == new.node && old.endpoint == new.endpoint then some old else none
after_claim new zero none = none
after_claim new (suc left) none = some new

-- The entity that a claim names, with the place it is claimed for.
abbrev pub claimed_location : ℕ → Bytes8 → EntityLocation
claimed_location source bytes = record {
  entity = u32_le bytes.b2 bytes.b3 bytes.b4 bytes.b5;
  node = source;
  endpoint = bytes.b1;
}

module _ (entity : ℕ) where
  abbrev of_entity : EntityLocation → Bool
  of_entity e = e.entity == entity

  -- Removing the first entry of one entity leaves what is found of another.
  find_slot-clear_other :
      (other : ℕ) (slots : List (Option EntityLocation))
      → other ≢ entity
      → find_slot of_entity (replace_slot (λ e. e.entity == other) (λ e. none) slots)
        ≡ find_slot of_entity slots
  unfolding find_slot replace_slot
  find_slot-clear_other other [] ne = refl
  find_slot-clear_other other (none ∷ slots) ne = find_slot-clear_other other slots ne
  find_slot-clear_other other (some e ∷ slots) ne =
      ground (arith, find_slot-clear_other other slots ne)

  -- And of an entity that has one entry none is left.
  find_slot-clear_same :
      (slots : List (Option EntityLocation))
      → Distinct same_entity slots
      → find_slot of_entity (replace_slot of_entity (λ e. none) slots) ≡ none
  unfolding find_slot replace_slot
  find_slot-clear_same [] d = refl
  find_slot-clear_same (none ∷ slots) d = find_slot-clear_same slots d
  find_slot-clear_same (some e ∷ slots) d = elim (Bool-cases (e.entity == entity)) [
    | inl here ↦
        let same : e.entity ≡ entity = ground arith in
        let last : find_slot of_entity slots ≡ none =
          subst (λ k. find_slot (λ f. f.entity == k) slots ≡ none) same d.0 in
        ground (arith, here, last)
    | inr there ↦ ground (arith, there, find_slot-clear_same slots d.1)
  ]

  find_slot-fill_slot_apart :
      (new : EntityLocation) (slots filled : List (Option EntityLocation))
      → new.entity ≢ entity
      → fill_slot new slots ≡ some filled
      → find_slot of_entity filled ≡ find_slot of_entity slots
  unfolding find_slot fill_slot
  find_slot-fill_slot_apart new [] filled ne e = cc
  find_slot-fill_slot_apart new (none ∷ slots) filled ne e = ground arith
  find_slot-fill_slot_apart new (some b ∷ slots) filled ne e =
      elim (Option-cases (fill_slot new slots)) [
        | inl full ↦ ground arith
        | inr (rest, more) ↦ ground (arith, find_slot-fill_slot_apart new slots rest)
      ]

module _ {W : Type 0} (env : Env W) (source : ℕ) (bytes : Bytes8) (s : Sys W) where
  resolve-learn_entity_same :
      Distinct same_entity s.node.entities
      → let claim = claimed_location source bytes in
        resolve claim.entity (learn_entity env source bytes s).node
        ≡ after_claim claim (room s.node.entities) (resolve claim.entity s.node)
  unfolding resolve learn_entity
  resolve-learn_entity_same d =
      let claim = claimed_location source bytes in
      let slots = s.node.entities in
      elim (Option-cases (find_slot (of_entity claim.entity) slots)) [
        | inl unknown ↦ elim (fill_slot_room claim slots) [
          | inl (full, empty) ↦ ground (arith, unknown, full, empty)
          | inr (filled, e, less) ↦
              let found : find_slot (of_entity claim.entity) filled ≡ some claim =
                find_slot-fill_slot (of_entity claim.entity) claim slots filled unknown e
                  (ground arith) in
              let roomy : after_claim claim (room slots) none ≡ some claim =
                subst (λ k. after_claim claim k none ≡ some claim) less refl in
              ground (arith, unknown, e, found, roomy)
        ]
        | inr (entry, known) ↦ ground (arith, known, find_slot-clear_same claim.entity slots d)
      ]

  resolve-learn_entity_other :
      (entity : ℕ)
      → (claimed_location source bytes).entity ≢ entity
      → resolve entity (learn_entity env source bytes s).node ≡ resolve entity s.node
  unfolding resolve learn_entity
  resolve-learn_entity_other entity ne =
      let claim = claimed_location source bytes in
      let slots = s.node.entities in
      elim (Option-cases (find_slot (of_entity claim.entity) slots)) [
        | inl unknown ↦ elim (Option-cases (fill_slot claim slots)) [
          | inl full ↦ ground (arith, unknown, full)
          | inr (filled, e) ↦
              ground (arith, unknown, e, find_slot-fill_slot_apart entity claim slots filled ne e)
        ]
        | inr (entry, known) ↦
            ground (arith, known, find_slot-clear_other entity claim.entity slots ne)
      ]

-- In a directory with one entry for each entity, a claim changes what is resolved for its entity,
-- and for no other, also if another entity is known at the claimed place. If the entity was unknown, it is known at the claimed place from then on, unless all slots are taken; if it was
-- known at that place, it stays; if it was known elsewhere, it becomes unknown.
pub resolve-learn_entity :
    {W : Type 0} (env : Env W) (source : ℕ) (bytes : Bytes8) (entity : ℕ) (s : Sys W)
    → Distinct same_entity s.node.entities
    → let claim = claimed_location source bytes in
      resolve entity (learn_entity env source bytes s).node ≡ (
        if claim.entity == entity
        then after_claim claim (room s.node.entities) (resolve entity s.node)
        else resolve entity s.node)
resolve-learn_entity env source bytes entity s d =
    let claim = claimed_location source bytes in
    elim (Bool-cases (claim.entity == entity)) [
      | inl same ↦
          let path : claim.entity ≡ entity = ground arith in
          simp same (
            subst
              (λ k.
                resolve k (learn_entity env source bytes s).node
                ≡ after_claim claim (room s.node.entities) (resolve k s.node))
              path (resolve-learn_entity_same env source bytes s d))
      | inr other ↦
          simp other (resolve-learn_entity_other env source bytes s entity (λ e. ground arith))
    ]
