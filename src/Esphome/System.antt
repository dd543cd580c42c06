-- ===== src/Esphome/System.antt =====
-- A whole board: what ESPHome calls on `HacanComponent`, the devices and the actions, in hacan.h,
-- hacan.cpp and the platforms. The runtime is changed by its own functions, on the board's world.
pub mod Frames
pub mod Setup
pub mod Ownership
pub mod Broadcast
pub mod Heard
pub mod Press
pub mod Healthy
pub mod Reachable
pub mod Repeats
pub mod Events
pub mod Commands
use esphome_hacan.Base.{
  ℕ, ◌+◌, Bool, false, not, ◌||◌, Option, none, some, List, [], ◌∷◌, ◌==◌, if◌then◌else◌, length,
  get_elem?, get_or, set, ok, err, Bytes8, u8, u32,
}
use esphome_hacan.Types.{DataType}
use esphome_hacan.FrameCodec.{RawCanFrame, decode}
use esphome_hacan.Runtime.Env.{Env, Reaction, Publication}
use esphome_hacan.Runtime.Node.{Node, Sys, start}
use esphome_hacan.Runtime.Registry.{
  register_owned_entity, register_endpoint, register_state_listener, register_event_listener,
}
use esphome_hacan.Runtime.Publish.{publish_state, publish_event, publish}
use esphome_hacan.Runtime.Handle.{receive}
use esphome_hacan.Runtime.Tick.{tick}
use esphome_hacan.Esphome.Framework.{Framework, bool_byte, byte_value, quality_valid}
use esphome_hacan.Esphome.EventSource.{ButtonEvent, button_event_code}
use esphome_hacan.Esphome.Switch
use esphome_hacan.Esphome.Light
use esphome_hacan.Esphome.BinarySensor
use esphome_hacan.Esphome.BinarySensor.{BinarySensor}
use esphome_hacan.Esphome.Board.{Device, World, put_device, board_env}
use esphome_hacan.Esphome.Component.{HacanComponent, OwnedEndpoint}

pub record Board (X : Type 0) : Type 0 where
  pub component : HacanComponent
  pub world : World X
  pub sensors : List BinarySensor

-- `runtime_->publish_state(…)` with the value of a `bool`, and `runtime_->publish_event(…)`.
unfoldable pub publish_bool_state : ℕ → Bool → HacanComponent → HacanComponent × Bool
publish_bool_state endpoint value c = elim c.runtime [
  | none ↦ (c, false)
  | some n ↦
      let (n', published) =
        publish_state endpoint (byte_value DataType.bool (bool_byte value)) quality_valid n in
      (record c { runtime = some n' }, published)
]

unfoldable pub publish_button_event : ℕ → ℕ → HacanComponent → HacanComponent × Bool
publish_button_event endpoint event c = elim c.runtime [
  | none ↦ (c, false)
  | some n ↦
      let (n', published) = publish_event endpoint (byte_value DataType.enum8 event) 0 n in
      (record c { runtime = some n' }, published)
]

-- What a device or its automations publish: each through `publish_bool_state` or
-- `publish_button_event`, which do nothing without a runtime.
unfoldable pub publish_all : List Publication → HacanComponent → HacanComponent
publish_all publications c = elim c.runtime [
  | none ↦ c
  | some n ↦ record c { runtime = some (publish publications n) }
]

-- `PublishEventAction`
pub record PublishEventAction : Type 0 where
  pub has_hacan : Bool
  pub endpoint : ℕ
  pub event : ℕ

abbrev pub new_action : PublishEventAction
new_action = record { has_hacan = false; endpoint = 0; event = button_event_code ButtonEvent.press }

abbrev pub set_hacan : Bool → PublishEventAction → PublishEventAction
set_hacan hacan a = record a { has_hacan = hacan }

abbrev pub set_endpoint : ℕ → PublishEventAction → PublishEventAction
set_endpoint endpoint a = record a { endpoint = endpoint }

abbrev pub set_event : ℕ → PublishEventAction → PublishEventAction
set_event event a = record a { event = event }

unfoldable pub play : PublishEventAction → HacanComponent → HacanComponent
play a c = if a.has_hacan then (publish_button_event a.endpoint a.event c).0 else c

-- The loops of `setup` over the configured endpoints and listeners.
module _ {W : Type 0} (env : Env W) where
  unfoldable pub register_handler : Option ℕ → Node → Node
  register_handler none n = n
  register_handler (some handler) n = (register_endpoint env handler n).0

  unfoldable pub register_endpoints : List (Option OwnedEndpoint) → Node → Node
  register_endpoints [] n = n
  register_endpoints (none ∷ slots) n = register_endpoints slots n
  register_endpoints (some o ∷ slots) n =
      register_endpoints slots
        (register_handler o.handler (register_owned_entity o.entity o.endpoint n).0)

  unfoldable pub register_state_listeners : List (Option ℕ) → Node → Node
  register_state_listeners [] n = n
  register_state_listeners (none ∷ slots) n = register_state_listeners slots n
  register_state_listeners (some listener ∷ slots) n =
      register_state_listeners slots (register_state_listener env listener n).0

  unfoldable pub register_event_listeners : List (Option ℕ) → Node → Node
  register_event_listeners [] n = n
  register_event_listeners (none ∷ slots) n = register_event_listeners slots n
  register_event_listeners (some listener ∷ slots) n =
      register_event_listeners slots (register_event_listener env listener n).0

-- `data[0]` to `data[7]`, copied to the frame.
abbrev pub data_bytes : List ℕ → Bytes8
data_bytes received = record {
  b0 = get_or received 0 0;
  b1 = get_or received 1 0;
  b2 = get_or received 2 0;
  b3 = get_or received 3 0;
  b4 = get_or received 4 0;
  b5 = get_or received 5 0;
  b6 = get_or received 6 0;
  b7 = get_or received 7 0;
}

abbrev pub raw_frame : ℕ → Bool → List ℕ → RawCanFrame
raw_frame can_id extended received = record {
  can_id = can_id;
  extended = extended;
  dlc = u8 (length received);
  bytes = data_bytes received;
}

module _ {X : Type 0} where
  unfoldable pub count_malformed : Board X → Board X
  count_malformed b = record b {
    component = record (b.component) { malformed_frames = u32 (b.component.malformed_frames + 1) };
  }

  unfoldable pub count_received : Board X → Board X
  count_received b = record b {
    component = record (b.component) { rx_frames = u32 (b.component.rx_frames + 1) };
  }

module _ {X : Type 0} (fw : Framework X) where
  -- A call of the runtime, if there is one, with the board's devices as its environment.
  unfoldable pub with_runtime : (Env (World X) → Sys (World X) → Sys (World X)) → Board X → Board X
  with_runtime change b = elim b.component.runtime [
    | none ↦ b
    | some n ↦
        let s = change (board_env fw b.world.devices) (record { node = n; world = b.world }) in
        record b { component = record (b.component) { runtime = some s.node }; world = s.world }
  ]

  unfoldable pub setup : Board X → Board X
  setup b =
      let c = b.component in
      let env = board_env fw b.world.devices in
      let s = start env (fw.mac_address b.world.rest) c.role b.world in
      let n = register_event_listeners env c.event_listeners (
        register_state_listeners env c.state_listeners
          (register_endpoints env c.owned_endpoints s.node)) in
      record b { component = record c { runtime = some n }; world = s.world }

  -- The callback of the CAN bus.
  unfoldable pub on_frame : ℕ → Bool → Bool → List ℕ → Board X → Board X
  on_frame can_id extended remote received b =
      if remote || not (length received == 8)
      then count_malformed b
      else let frame = raw_frame can_id extended received in
        elim (decode frame) [
          | err e ↦ count_malformed b
          | ok decoded ↦
              with_runtime (λ env s. receive env frame (fw.millis b.world.rest) s)
                (count_received b)
        ]

  unfoldable pub loop : Board X → Board X
  loop b = with_runtime (λ env s. tick env (fw.millis b.world.rest) s) b

  -- A device's reaction outside a call of the runtime.
  abbrev pub absorb : Reaction (World X) → Board X → Board X
  absorb r b = record b { component = publish_all r.publications b.component; world = r.world }

  -- `write_state` of a switch or a light, which ESPHome calls; a light is written with its state.
  unfoldable pub device_write : ℕ → Bool → ℕ → Device → World X → Reaction (World X)
  device_write self on state (Device.switch s) w =
      let (s', r) = Switch.write_state fw self on s w.rest in put_device self (Device.switch s') r w
  device_write self on state (Device.light l) w =
      put_device self (Device.light l) (Light.write_state fw state l w.rest) w

  unfoldable pub write_state : ℕ → Bool → ℕ → Board X → Board X
  write_state self on state b = elim (get_elem? b.world.devices self) [
    | none ↦ b
    | some d ↦ absorb (device_write self on state d b.world) b
  ]

  unfoldable pub setup_sensor : ℕ → Board X → Board X
  setup_sensor self b = elim (get_elem? b.sensors self) [
    | none ↦ b
    | some sensor ↦ record b { sensors = set b.sensors self (BinarySensor.setup sensor) }
  ]

  unfoldable pub on_source_state : ℕ → Bool → Board X → Board X
  on_source_state self state b = elim (get_elem? b.sensors self) [
    | none ↦ b
    | some sensor ↦
        let r = BinarySensor.on_source_state fw self state sensor b.world.rest in
        record b {
          component = publish_all r.publications b.component;
          world = record (b.world) { rest = r.world };
        }
  ]
