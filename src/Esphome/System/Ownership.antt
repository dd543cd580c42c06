-- ===== src/Esphome/System/Ownership.antt =====
-- What the runtime owns after the setup of a board with a configuration.
use esphome_hacan.Base.{
  ℕ, ◌-◌, ◌≤◌, true, ◌≡◌, refl, sym, subst, ◌∙◌, Option, some, none, List, [], ◌∷◌, arith, All,
  Option-cases, length, packed,
}
use esphome_hacan.Runtime.Env.{Env}
use esphome_hacan.Runtime.Node.{Node, CommissioningRole, start, mark_own, fresh, bootstrap}
use esphome_hacan.Runtime.Uid.{Uid}
use esphome_hacan.Runtime.Registry.{
  register_observed_entity, register_state_listener, register_event_listener,
}
use esphome_hacan.Esphome.Framework.{Framework}
use esphome_hacan.Esphome.Board.{board_env}
use esphome_hacan.Esphome.Component.{OwnedEndpoint, new_component, max_configured_entities}
use esphome_hacan.Esphome.Component.Configuration.{configure, configure-Distinct}
use esphome_hacan.Esphome.Component.Ownable.{is_ownable, configure-ownable}
use esphome_hacan.Esphome.System.{
  Board, register_endpoints, register_state_listeners, register_event_listeners, setup,
}
use esphome_hacan.Esphome.System.Setup.{configured, register_endpoints-owned}

length-configured : (slots : List (Option OwnedEndpoint)) → length (configured slots) ≤ length slots
length-configured [] = omega arith
length-configured (none ∷ slots) = ground (arith, length-configured slots)
length-configured (some o ∷ slots) = ground (arith, length-configured slots)

register_observed_entity-owned :
    (entity : ℕ) (n : Node)
    → (register_observed_entity entity n).0.owned_entities ≡ n.owned_entities
unfolding register_observed_entity
register_observed_entity-owned entity n = ground arith

module _ {W : Type 0} (env : Env W) where
  register_state_listeners-owned :
      (slots : List (Option ℕ)) (n : Node)
      → (register_state_listeners env slots n).owned_entities ≡ n.owned_entities
  unfolding register_state_listeners register_state_listener
  register_state_listeners-owned [] n = refl
  register_state_listeners-owned (none ∷ slots) n = register_state_listeners-owned slots n
  register_state_listeners-owned (some listener ∷ slots) n =
      register_state_listeners-owned slots _
      ∙ ground (arith, register_observed_entity-owned (env.state_entity listener) n)

  register_event_listeners-owned :
      (slots : List (Option ℕ)) (n : Node)
      → (register_event_listeners env slots n).owned_entities ≡ n.owned_entities
  unfolding register_event_listeners register_event_listener
  register_event_listeners-owned [] n = refl
  register_event_listeners-owned (none ∷ slots) n = register_event_listeners-owned slots n
  register_event_listeners-owned (some listener ∷ slots) n =
      register_event_listeners-owned slots _
      ∙ ground (arith, register_observed_entity-owned (env.event_entity listener) n)

  start-owned :
      (uid : Uid) (role : CommissioningRole) (w : W)
      → (start env uid role w).node.owned_entities ≡ packed [] max_configured_entities
  unfolding start mark_own fresh
  start-owned uid role w =
      ground (arith, Option-cases (bootstrap env role (env.load w).1 (env.load w).0).1)

module _ {X : Type 0} (fw : Framework X) where
  -- If the configuration added endpoints from a new component, each with an entity and an endpoint
  -- that may be owned, then the setup makes a runtime whose own entities are those that the
  -- component's array holds, in their order and without a gap: it refuses none.
  pub setup-owned :
      (calls : List OwnedEndpoint) (b : Board X)
      → All (λ o. is_ownable o ≡ true) calls
      → b.component.owned_endpoints ≡ (configure calls new_component).owned_endpoints
      → (n : Node) × ((setup fw b).component.runtime ≡ some n)
        × (n.owned_entities
            ≡ packed
                (configured b.component.owned_endpoints)
                (max_configured_entities - length (configured b.component.owned_endpoints)))
  unfolding setup
  setup-owned calls b ownable built =
      let c = b.component in
      let env = board_env fw b.world.devices in
      let first = (start env (fw.mac_address b.world.rest) c.role b.world).node in
      let slots = (configure calls new_component).owned_endpoints in
      let made = configure-ownable calls new_component ownable tt in
      let distinct = configure-Distinct calls new_component tt in
      let n = register_endpoints env c.owned_endpoints first in
      (
        _,
        refl,
        register_event_listeners-owned env c.event_listeners _
            ∙ register_state_listeners-owned env c.state_listeners n
            ∙ subst
                (λ s.
                  (register_endpoints env s first).owned_entities
                  ≡ packed (configured s) (max_configured_entities - length (configured s)))
                (sym built)
                (register_endpoints-owned env slots [] max_configured_entities first
                  (start-owned env (fw.mac_address b.world.rest) c.role b.world)
                  (ground (arith, length-configured slots, made.1)) made.0 distinct tt),
      )
