-- ===== src/Esphome/Component.antt =====
-- components/hacan/hacan.h and .cpp: the state of `HacanComponent`, and the calls that the
-- generated configuration makes before the setup.
pub mod Configuration
pub mod Ownable
use esphome_hacan.Base.{
  ℕ, ◌&&◌, ◌||◌, Option, none, some, List, [], ◌∷◌, ◌==◌, if◌then◌else◌, replicate, fill_slot,
  find_slot, is_filled,
}
use esphome_hacan.Runtime.Node.{Node, CommissioningRole}

pub record OwnedEndpoint : Type 0 where
  pub entity : ℕ
  pub endpoint : ℕ
  pub handler : Option ℕ

-- The state of `HacanComponent` but `tx_frames`, which is in the world, and the pointers to ESPHome.
pub record HacanComponent : Type 0 where
  pub role : CommissioningRole
  pub owned_endpoints : List (Option OwnedEndpoint)
  pub state_listeners : List (Option ℕ)
  pub event_listeners : List (Option ℕ)
  pub runtime : Option Node
  pub rx_frames : ℕ
  pub malformed_frames : ℕ

abbrev pub max_configured_entities : ℕ
max_configured_entities = 16

abbrev pub new_component : HacanComponent
new_component = record {
  role = CommissioningRole.no_role;
  owned_endpoints = replicate max_configured_entities none;
  state_listeners = replicate max_configured_entities none;
  event_listeners = replicate max_configured_entities none;
  runtime = none;
  rx_frames = 0;
  malformed_frames = 0;
}

-- The cast of the code; a role that is neither primary nor secondary does nothing.
abbrev pub role_of_code : ℕ → CommissioningRole
role_of_code code =
    if code == 0
    then CommissioningRole.primary
    else if code == 1
    then CommissioningRole.secondary
    else CommissioningRole.no_role

unfoldable pub set_commissioning_role : ℕ → HacanComponent → HacanComponent
set_commissioning_role role c = record c { role = role_of_code role }

abbrev pub with_handler : Option ℕ → OwnedEndpoint → OwnedEndpoint
with_handler none o = o
with_handler (some handler) o = record o { handler = some handler }

-- The first loop of `add_owned_endpoint`: the slots if it returns.
unfoldable pub merge_endpoint :
    ℕ → ℕ → Option ℕ → List (Option OwnedEndpoint) → Option (List (Option OwnedEndpoint))
merge_endpoint entity endpoint handler [] = none
merge_endpoint entity endpoint handler (none ∷ slots) =
    elim (merge_endpoint entity endpoint handler slots) [
      | none ↦ none
      | some merged ↦ some (none ∷ merged)
    ]
merge_endpoint entity endpoint handler (some o ∷ slots) =
    if o.entity == entity && o.endpoint == endpoint
    then some (some (with_handler handler o) ∷ slots)
    else if o.entity == entity || o.endpoint == endpoint
    then some (some o ∷ slots)
    else elim (merge_endpoint entity endpoint handler slots) [
      | none ↦ none
      | some merged ↦ some (some o ∷ merged)
    ]

abbrev pub new_endpoint : ℕ → ℕ → Option ℕ → OwnedEndpoint
new_endpoint entity endpoint handler = record {
  entity = entity;
  endpoint = endpoint;
  handler = handler;
}

-- Both loops, on the slots; a full array stays as it is.
unfoldable pub add_endpoint :
    ℕ → ℕ → Option ℕ → List (Option OwnedEndpoint) → List (Option OwnedEndpoint)
add_endpoint entity endpoint handler slots = elim (merge_endpoint entity endpoint handler slots) [
  | some merged ↦ merged
  | none ↦ elim (fill_slot (new_endpoint entity endpoint handler) slots) [
    | some filled ↦ filled
    | none ↦ slots
  ]
]

unfoldable pub add_owned_endpoint : ℕ → ℕ → Option ℕ → HacanComponent → HacanComponent
add_owned_endpoint entity endpoint handler c = record c {
  owned_endpoints = add_endpoint entity endpoint handler c.owned_endpoints;
}

abbrev pub fill_or_keep : ℕ → List (Option ℕ) → List (Option ℕ)
fill_or_keep listener slots = elim (fill_slot listener slots) [
  | none ↦ slots
  | some filled ↦ filled
]

-- A null listener written to an empty slot changes nothing.
unfoldable pub add_state_listener : Option ℕ → HacanComponent → HacanComponent
add_state_listener none c = c
add_state_listener (some listener) c = record c {
  state_listeners = fill_or_keep listener c.state_listeners;
}

unfoldable pub add_event_listener : Option ℕ → HacanComponent → HacanComponent
add_event_listener none c = c
add_event_listener (some listener) c =
    if is_filled (find_slot (λ l. l == listener) c.event_listeners)
    then c
    else record c { event_listeners = fill_or_keep listener c.event_listeners }
