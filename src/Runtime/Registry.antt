-- ===== src/Runtime/Registry.antt =====
-- The registrations of `NodeRuntime`: owned and observed entities, handlers and listeners.
use esphome_hacan.Base.{
  ℕ, Bool, true, false, ◌&&◌, ◌||◌, Option, none, some, List, [], ◌∷◌, ◌==◌, if◌then◌else◌,
  find_slot, fill_slot, is_filled,
}
use esphome_hacan.Runtime.Env.{Env}
use esphome_hacan.Runtime.Node.{Node, EntityLocation}

-- The first loop of `register_owned_entity`: an early return, if there is one.
unfoldable pub owned_return : ℕ → ℕ → List (Option EntityLocation) → Option Bool
owned_return entity endpoint [] = none
owned_return entity endpoint (none ∷ slots) = owned_return entity endpoint slots
owned_return entity endpoint (some entry ∷ slots) =
    let rest = owned_return entity endpoint slots in
    if entry.entity == entity && entry.endpoint == endpoint
    then some true
    else if entry.entity == entity || entry.endpoint == endpoint
    then some false
    else rest

-- The second loop: the first empty slot takes the entity.
unfoldable pub add_owned : ℕ → ℕ → Node → Node × Bool
add_owned entity endpoint n =
    elim (fill_slot (record { entity = entity; node = 0; endpoint = endpoint }) n.owned_entities) [
      | none ↦ (n, false)
      | some slots ↦ (record n { owned_entities = slots }, true)
    ]

unfoldable pub register_owned_entity : ℕ → ℕ → Node → Node × Bool
register_owned_entity entity endpoint n =
    if entity == 0 || endpoint == 0 || endpoint == 0xff
    then (n, false)
    else elim (owned_return entity endpoint n.owned_entities) [
      | some result ↦ (n, result)
      | none ↦ add_owned entity endpoint n
    ]

unfoldable pub register_observed_entity : ℕ → Node → Node × Bool
register_observed_entity entity n =
    if entity == 0
    then (n, false)
    else if is_filled (find_slot (λ e. e == entity) n.observed_entities)
    then (n, true)
    else elim (fill_slot entity n.observed_entities) [
      | none ↦ (n, false)
      | some slots ↦ (record n { observed_entities = slots }, true)
    ]

unfoldable pub owns_endpoint : ℕ → Node → Bool
owns_endpoint endpoint n = is_filled (find_slot (λ o. o.endpoint == endpoint) n.owned_entities)

module _ {W : Type 0} (env : Env W) where
  -- The loop of `register_endpoint`: the slots after it, and what it returns.
  unfoldable pub add_handler : ℕ → List (Option ℕ) → List (Option ℕ) × Bool
  add_handler handler [] = ([], false)
  add_handler handler (none ∷ slots) = (some handler ∷ slots, true)
  add_handler handler (some registered ∷ slots) =
      let rest = add_handler handler slots in
      if env.endpoint registered == env.endpoint handler
      then (some registered ∷ slots, registered == handler)
      else (some registered ∷ rest.0, rest.1)

  unfoldable pub register_endpoint : ℕ → Node → Node × Bool
  register_endpoint handler n =
      let id = env.endpoint handler in
      if id == 0 || id == 0xff
      then (n, false)
      else let (slots, registered) = add_handler handler n.endpoint_handlers in
        (record n { endpoint_handlers = slots }, registered)

  unfoldable pub endpoint_handler : ℕ → Node → Option ℕ
  endpoint_handler endpoint n = find_slot (λ h. env.endpoint h == endpoint) n.endpoint_handlers

  -- The listener is registered only if its entity is observed.
  unfoldable pub register_state_listener : ℕ → Node → Node × Bool
  register_state_listener listener n =
      let entity = env.state_entity listener in
      if entity == 0
      then (n, false)
      else if is_filled (find_slot (λ l. l == listener) n.state_listeners)
      then (n, true)
      else elim (fill_slot listener n.state_listeners) [
        | none ↦ (n, false)
        | some slots ↦
            let (n', observed) = register_observed_entity entity n in
            if observed then (record n' { state_listeners = slots }, true) else (n', false)
      ]

  unfoldable pub register_event_listener : ℕ → Node → Node × Bool
  register_event_listener listener n =
      let entity = env.event_entity listener in
      if entity == 0
      then (n, false)
      else if is_filled (find_slot (λ l. l == listener) n.event_listeners)
      then (n, true)
      else elim (fill_slot listener n.event_listeners) [
        | none ↦ (n, false)
        | some slots ↦
            let (n', observed) = register_observed_entity entity n in
            if observed then (record n' { event_listeners = slots }, true) else (n', false)
      ]
