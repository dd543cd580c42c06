-- ===== src/Runtime/Sound.antt =====
-- What holds of the addresses and tables of a node.
pub mod Sending
pub mod Handling
pub mod Delivering
pub mod Receiving
pub mod Ticking
pub mod Registering
use esphome_hacan.Base.{
  ℕ, ◌≤◌, ◌<◌, ◌≡◌, ◌==◌, ◌||◌, Bool, Option, none, some, sym, subst, arith, Distinct,
}
use esphome_hacan.Runtime.Node.{Node, EntityLocation}
use esphome_hacan.Runtime.Settled.{settled}

-- An address of a node, if there is one.
abbrev pub InRange : Option ℕ → Type 0
InRange none = Unit {0}
InRange (some a) = (0 < a) × (a < 0x1ff)

-- At most two claims are sent, and none without an address.
abbrev pub ClaimsFit : Option ℕ → ℕ → Type 0
ClaimsFit none claims = claims ≡ 0
ClaimsFit (some a) claims = claims ≤ 2

abbrev pub same_entity : EntityLocation → EntityLocation → Bool
same_entity e f = f.entity == e.entity

-- Two owned entities share the entity or the endpoint.
abbrev pub overlaps : EntityLocation → EntityLocation → Bool
overlaps e f = f.entity == e.entity || f.endpoint == e.endpoint

abbrev pub same_number : ℕ → ℕ → Bool
same_number a b = b == a

-- The address is in range, claims are sent only with one, the directory has one entry for each
-- entity, and the own and the observed entities differ, the own ones also in their endpoints.
abbrev pub IsSound : Node → Type 0
IsSound n =
    InRange n.address
    × ClaimsFit n.address n.claims_sent
    × Distinct same_entity n.entities
    × Distinct overlaps n.owned_entities
    × Distinct same_number n.observed_entities

pub IsSound-of_settled : (m n : Node) → settled m ≡ settled n → IsSound n → IsSound m
unfolding settled
IsSound-of_settled m n e sound = subst (λ (k : Node). IsSound k) (sym e) sound
