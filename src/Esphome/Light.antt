-- ===== src/Esphome/Light.antt =====
-- components/hacan/light/hacan_light.h and .cpp. ESPHome owns the light's state: a command asks it
-- for a change, and it calls `write_state` later.
use esphome_hacan.Base.{ℕ, Bool, false, not, Option, none, some, [], ◌∷◌, ◌==◌, if◌then◌else◌}
use esphome_hacan.Types.{Status}
use esphome_hacan.TypedValue.{TypedValue}
use esphome_hacan.Runtime.Env.{Reaction}
use esphome_hacan.Esphome.EventSource.{
  EventAction, action_of_code, EventSources, no_event_sources, add_event_source,
}
use esphome_hacan.Esphome.Framework.{Framework, quiet, bool_state}
use esphome_hacan.Esphome.Switch.{is_bool_value}

-- `light_state` is the number of the `LightState`, once `setup_state` has set it.
pub record Light : Type 0 where
  pub has_hacan : Bool
  pub output : Option ℕ
  pub light_state : Option ℕ
  pub endpoint : ℕ
  pub event_sources : EventSources

abbrev pub new_light : Light
new_light = record {
  has_hacan = false;
  output = none;
  light_state = none;
  endpoint = 0;
  event_sources = no_event_sources;
}

-- The setters that the generated configuration calls.
abbrev pub set_hacan : Bool → Light → Light
set_hacan hacan l = record l { has_hacan = hacan }

abbrev pub set_output : Option ℕ → Light → Light
set_output output l = record l { output = output }

abbrev pub set_endpoint : ℕ → Light → Light
set_endpoint endpoint l = record l { endpoint = endpoint }

unfoldable pub setup_state : ℕ → Light → Light
setup_state state l = record l { light_state = some state }

module _ {X : Type 0} (fw : Framework X) where
  unfoldable pub write_state : ℕ → Light → X → Reaction X
  write_state state l x = elim l.output [
    | none ↦ quiet x
    | some output ↦
        if not l.has_hacan
        then quiet x
        else let value = fw.light_value state x in
          record {
            world = fw.set_output output value x;
            publications = bool_state l.endpoint value ∷ [];
          }
  ]

  unfoldable pub command : TypedValue → Light → X → Status × Reaction X
  command value l x =
      if not (is_bool_value value) then (Status.invalid_value, quiet x) else elim l.light_state [
        | none ↦ (Status.fault, quiet x)
        | some state ↦ (
          Status.accepted,
          fw.perform state
              (if value.bytes.v0 == 0 then EventAction.turn_off else EventAction.turn_on) x,
        )
      ]

  unfoldable pub apply_event_action : ℕ → Light → X → Reaction X
  apply_event_action action l x = elim l.light_state [
    | none ↦ quiet x
    | some state ↦ elim (action_of_code action) [
      | none ↦ quiet x
      | some request ↦ fw.perform state request x
    ]
  ]

unfoldable pub add_source : ℕ → ℕ → ℕ → ℕ → Light → Light × Option ℕ
add_source self entity event action l =
    let (sources, index) = add_event_source self entity event action l.event_sources in
    (record l { event_sources = sources }, index)
