-- ===== src/Esphome/Switch.antt =====
-- components/hacan/switch/hacan_switch.h and .cpp.
pub mod Changes
use esphome_hacan.Base.{
  ℕ, Bool, true, false, not, ◌&&◌, Option, none, some, [], ◌∷◌, ◌++◌, ◌==◌, if◌then◌else◌,
}
use esphome_hacan.Types.{DataType, data_type_code, Status}
use esphome_hacan.TypedValue.{TypedValue, is_valid}
use esphome_hacan.Runtime.Env.{Reaction}
use esphome_hacan.Esphome.EventSource.{
  EventAction, action_of_code, EventSources, no_event_sources, add_event_source,
}
use esphome_hacan.Esphome.Framework.{Framework, quiet, bool_state}

-- `has_hacan` says whether the pointer `hacan_` is set.
pub record Switch : Type 0 where
  pub has_hacan : Bool
  pub output : Option ℕ
  pub endpoint : ℕ
  pub state_source_entity : ℕ
  pub applied_state : Option Bool
  pub event_sources : EventSources

abbrev pub new_switch : Switch
new_switch = record {
  has_hacan = false;
  output = none;
  endpoint = 0;
  state_source_entity = 0;
  applied_state = none;
  event_sources = no_event_sources;
}

abbrev pub same_bool : Bool → Bool → Bool
same_bool true b = b
same_bool false b = not b

-- The setters that the generated configuration calls.
abbrev pub set_hacan : Bool → Switch → Switch
set_hacan hacan s = record s { has_hacan = hacan }

abbrev pub set_output : Option ℕ → Switch → Switch
set_output output s = record s { output = output }

abbrev pub set_endpoint : ℕ → Switch → Switch
set_endpoint endpoint s = record s { endpoint = endpoint }

abbrev pub set_state_source_entity : ℕ → Switch → Switch
set_state_source_entity entity s = record s { state_source_entity = entity }

-- `applied_state_ && *applied_state_ == state`
abbrev pub is_current : Option Bool → Bool → Bool
is_current none on = false
is_current (some applied) on = same_bool applied on

-- `applied_state_.value_or(false)`
abbrev pub applied_or_off : Switch → Bool
applied_or_off s = elim s.applied_state [ none ↦ false | some applied ↦ applied ]

-- `type() != kBool || validate() != kNone` is the early return.
unfoldable pub is_bool_value : TypedValue → Bool
is_bool_value value = value.type == data_type_code DataType.bool && is_valid value

module _ {X : Type 0} (fw : Framework X) (self : ℕ) where
  -- The statements below the early returns of `apply_state`.
  unfoldable pub change_state : ℕ → Bool → Switch → X → Switch × Reaction X
  change_state output on s x =
      let shown = fw.publish_switch self on (fw.set_output output on x) in
      (
        record s { applied_state = some on },
        record shown { publications = shown.publications ++ bool_state s.endpoint on ∷ [] },
      )

  unfoldable pub apply_state : Bool → Switch → X → Switch × Reaction X
  apply_state on s x = elim s.output [
    | none ↦ (s, quiet x)
    | some output ↦
        if not s.has_hacan
        then (s, quiet x)
        else if is_current s.applied_state on
        then (s, quiet x)
        else change_state output on s x
  ]

  unfoldable pub write_state : Bool → Switch → X → Switch × Reaction X
  write_state = apply_state

  unfoldable pub command : TypedValue → Switch → X → Status × (Switch × Reaction X)
  command value s x =
      if not (is_bool_value value)
      then (Status.invalid_value, (s, quiet x))
      else (Status.accepted, apply_state (not (value.bytes.v0 == 0)) s x)

  -- `state`; the quality is not read.
  unfoldable pub on_state : TypedValue → ℕ → Switch → X → Switch × Reaction X
  on_state value quality s x =
      if not (is_bool_value value)
      then (s, quiet x)
      else apply_state (not (value.bytes.v0 == 0)) s x

  unfoldable pub apply_event_action : ℕ → Switch → X → Switch × Reaction X
  apply_event_action action s x = elim (action_of_code action) [
    | none ↦ (s, quiet x)
    | some EventAction.toggle ↦ apply_state (not (applied_or_off s)) s x
    | some EventAction.turn_on ↦ apply_state true s x
    | some EventAction.turn_off ↦ apply_state false s x
  ]

  unfoldable pub add_source : ℕ → ℕ → ℕ → Switch → Switch × Option ℕ
  add_source entity event action s =
      let (sources, index) = add_event_source self entity event action s.event_sources in
      (record s { event_sources = sources }, index)
