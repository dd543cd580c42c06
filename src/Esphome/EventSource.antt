-- ===== src/Esphome/EventSource.antt =====
-- components/hacan/event_source_binding.h and .cpp, protocol_button_event.h: an event of another
-- node that acts on a switch or a light. Codes that the configuration casts to an enumeration are
-- stored as codes.
use esphome_hacan.Base.{
  ℕ, ◌+◌, Bool, ◌&&◌, Option, none, some, List, ◌==◌, if◌then◌else◌, replicate, set, u8,
}
use esphome_hacan.Types.{DataType, data_type_code}
use esphome_hacan.TypedValue.{TypedValue, is_valid}

pub data ButtonEvent : Type 0 where
  press release click double_click long_press : ButtonEvent

abbrev pub button_event_code : ButtonEvent → ℕ
button_event_code ButtonEvent.press = 0x01
button_event_code ButtonEvent.release = 0x02
button_event_code ButtonEvent.click = 0x03
button_event_code ButtonEvent.double_click = 0x04
button_event_code ButtonEvent.long_press = 0x05

pub data EventAction : Type 0 where
  toggle turn_on turn_off : EventAction

-- The enumerator of a code, for the `switch` statements over the enumerators.
abbrev pub action_of_code : ℕ → Option EventAction
action_of_code code =
    if code == 0
    then some EventAction.toggle
    else if code == 1
    then some EventAction.turn_on
    else if code == 2
    then some EventAction.turn_off
    else none

-- `EventSourceBinding`; the target is the number of a device.
pub record EventSourceBinding : Type 0 where
  pub entity : ℕ
  pub event : ℕ
  pub action : ℕ
  pub target : Option ℕ

abbrev pub unbound : EventSourceBinding
unbound = record {
  entity = 0;
  event = button_event_code ButtonEvent.press;
  action = 0;
  target = none;
}

unfoldable pub configure : ℕ → ℕ → ℕ → Option ℕ → EventSourceBinding → EventSourceBinding
configure entity event action target b = record b {
  entity = entity;
  event = event;
  action = action;
  target = target;
}

-- The tests of `event` on the value, without the one on the target.
unfoldable pub accepts : TypedValue → EventSourceBinding → Bool
accepts value b =
    value.type == data_type_code DataType.enum8 && is_valid value && value.bytes.v0 == b.event

-- `event`: the device and the action that it asks for.
unfoldable pub event_request : TypedValue → EventSourceBinding → Option (ℕ × ℕ)
event_request value b = elim b.target [
  | none ↦ none
  | some target ↦ if accepts value b then some (target, b.action) else none
]

-- `event_sources_` and `event_source_count_` of a switch or a light.
pub record EventSources : Type 0 where
  pub bindings : List EventSourceBinding
  pub count : ℕ

abbrev pub max_event_sources : ℕ
max_event_sources = 8

abbrev pub no_event_sources : EventSources
no_event_sources = record { bindings = replicate max_event_sources unbound; count = 0 }

-- `add_event_source` of device `self`: the index of the binding, or none for the null pointer.
unfoldable pub add_event_source : ℕ → ℕ → ℕ → ℕ → EventSources → EventSources × Option ℕ
add_event_source self entity event action s = if s.count == max_event_sources then (s, none) else (
  record {
    bindings = set s.bindings s.count (configure entity event action (some self) unbound);
    count = u8 (s.count + 1);
  },
  some s.count,
)
