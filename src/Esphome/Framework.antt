-- ===== src/Esphome/Framework.antt =====
-- What the components call in ESPHome: the CAN bus, the preferences, outputs, lights, switches and
-- the clock. All of that is a value of a type `X`. Outputs, lights and devices are named by
-- numbers. A call that runs automations may publish events through this component (the action
-- `hacan.publish_event`) and change `X`, so it gives a reaction. Left out are automations that drive
-- a switch, a light or a sensor of this component, the same or another one.
use esphome_hacan.Base.{ℕ, Bool, Option, List, [], if◌then◌else◌}
use esphome_hacan.Types.{DataType, data_type_code}
use esphome_hacan.TypedValue.{TypedValue}
use esphome_hacan.Runtime.Env.{Publication, Reaction}
use esphome_hacan.Runtime.Uid.{Uid}
use esphome_hacan.Esphome.EventSource.{EventAction}

pub record Framework (X : Type 0) : Type 0 where
  -- `Canbus::send_data(…) == ERROR_OK`
  pub send_data : ℕ → Bool → List ℕ → X → X × Bool
  -- `ESPPreferenceObject::load` and `save` of the address, and `get_mac_address_raw`
  pub load_preference : X → Option ℕ
  pub save_preference : ℕ → X → X × Bool
  pub mac_address : X → Uid
  pub millis : X → ℕ
  -- `BinaryOutput::set_state`
  pub set_output : ℕ → Bool → X → X
  -- `Switch::publish_state` and `BinarySensor::publish_state`
  pub publish_switch : ℕ → Bool → X → Reaction X
  pub publish_sensor : ℕ → Bool → X → Reaction X
  -- `toggle().perform()` and its like on a light, and `current_values_as_binary`
  pub perform : ℕ → EventAction → X → Reaction X
  pub light_value : ℕ → X → Bool

abbrev pub quiet : {X : Type 0} → X → Reaction X
quiet x = record { world = x; publications = [] }

-- `static_cast<uint8_t>(value)` of a `bool`
abbrev pub bool_byte : Bool → ℕ
bool_byte on = if on then 1 else 0

-- A value of one byte, as `publish_bool_state` and `publish_button_event` build it.
abbrev pub byte_value : DataType → ℕ → TypedValue
byte_value type byte = record {
  type = data_type_code type;
  bytes = record { v0 = byte; v1 = 0; v2 = 0; v3 = 0 };
}

-- `StateQuality::kValid` of protocol_payload_state.h
abbrev pub quality_valid : ℕ
quality_valid = 1

-- The calls of the runtime in `publish_bool_state` and `publish_button_event`.
abbrev pub bool_state : ℕ → Bool → Publication
bool_state endpoint on =
    Publication.state endpoint (byte_value DataType.bool (bool_byte on)) quality_valid

abbrev pub button_event : ℕ → ℕ → Publication
button_event endpoint event = Publication.event endpoint (byte_value DataType.enum8 event) 0
