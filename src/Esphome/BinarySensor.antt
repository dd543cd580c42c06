-- ===== src/Esphome/BinarySensor.antt =====
-- components/hacan/binary_sensor/hacan_binary_sensor.h and .cpp: a sensor that mirrors another one
-- and publishes its state.
use esphome_hacan.Base.{ℕ, Bool, true, false, not, Option, none, some, [], ◌∷◌, ◌++◌, if◌then◌else◌}
use esphome_hacan.Runtime.Env.{Reaction}
use esphome_hacan.Esphome.Framework.{Framework, quiet, bool_state}

-- `subscribed` says whether the callback is registered, `failed` whether `mark_failed` was called.
pub record BinarySensor : Type 0 where
  pub has_hacan : Bool
  pub source : Option ℕ
  pub endpoint : ℕ
  pub failed : Bool
  pub subscribed : Bool

abbrev pub new_sensor : BinarySensor
new_sensor = record {
  has_hacan = false;
  source = none;
  endpoint = 0;
  failed = false;
  subscribed = false;
}

-- The setters that the generated configuration calls.
abbrev pub set_hacan : Bool → BinarySensor → BinarySensor
set_hacan hacan b = record b { has_hacan = hacan }

abbrev pub set_source : Option ℕ → BinarySensor → BinarySensor
set_source source b = record b { source = source }

abbrev pub set_endpoint : ℕ → BinarySensor → BinarySensor
set_endpoint endpoint b = record b { endpoint = endpoint }

unfoldable pub setup : BinarySensor → BinarySensor
setup b = elim b.source [
  | none ↦ record b { failed = true }
  | some source ↦
      if not b.has_hacan then record b { failed = true } else record b { subscribed = true }
]

module _ {X : Type 0} (fw : Framework X) (self : ℕ) where
  -- The callback on a state of the source, which runs only if it is registered.
  unfoldable pub on_source_state : Bool → BinarySensor → X → Reaction X
  on_source_state state b x =
      if not b.subscribed
      then quiet x
      else let shown = fw.publish_sensor self state x in
        record shown { publications = shown.publications ++ bool_state b.endpoint state ∷ [] }
