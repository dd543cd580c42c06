-- ===== src/Esphome/Board.antt =====
-- The devices of a board and `HacanComponent` as what the node runtime calls: the transmitter, the
-- address storage and the event sink of hacan.cpp, and the devices' handlers and listeners.
-- A handler or state listener is named by the number of its device, and an event listener by the
-- place of its binding: eight for each device.
pub mod Storage
pub mod Listeners
use esphome_hacan.Base.{
  ℕ, ◌+◌, ◌*◌, ◌/◌, ◌%◌, Bool, true, ◌||◌, Option, none, some, List, [], ◌∷◌, leb, ◌==◌,
  if◌then◌else◌, get_elem?, get_or, set, Bytes8, u32,
}
use esphome_hacan.Types.{Status}
use esphome_hacan.TypedValue.{TypedValue}
use esphome_hacan.FrameCodec.{RawCanFrame}
use esphome_hacan.Runtime.Env.{Env, Reaction}
use esphome_hacan.Esphome.EventSource.{
  EventSourceBinding, EventSources, unbound, event_request, max_event_sources,
}
use esphome_hacan.Esphome.Framework.{Framework, quiet}
use esphome_hacan.Esphome.Switch
use esphome_hacan.Esphome.Switch.{Switch}
use esphome_hacan.Esphome.Light
use esphome_hacan.Esphome.Light.{Light}

pub data Device : Type 0 where
  switch : Switch → Device
  light : Light → Device

-- `tx_frames` is the counter of `HacanComponent`; `rest` is ESPHome.
pub record World (X : Type 0) : Type 0 where
  pub devices : List Device
  pub tx_frames : ℕ
  pub rest : X

abbrev pub device_endpoint : Device → ℕ
device_endpoint (Device.switch s) = s.endpoint
device_endpoint (Device.light l) = l.endpoint

abbrev pub device_sources : Device → EventSources
device_sources (Device.switch s) = s.event_sources
device_sources (Device.light l) = l.event_sources

-- Only a switch is a state listener.
abbrev pub device_entity : Device → ℕ
device_entity (Device.switch s) = s.state_source_entity
device_entity (Device.light l) = 0

-- The number of the listener that is binding `index` of device `self`, and the binding of a
-- listener.
abbrev pub listener_of : ℕ → ℕ → ℕ
listener_of self index = self * max_event_sources + index

unfoldable pub binding_of : ℕ → List Device → EventSourceBinding
binding_of listener devices = elim (get_elem? devices (listener / max_event_sources)) [
  | none ↦ unbound
  | some d ↦ get_or (device_sources d).bindings (listener % max_event_sources) unbound
]

-- `std::vector<uint8_t> data(frame.data.begin(), frame.data.end())`
abbrev pub frame_data : Bytes8 → List ℕ
frame_data b = b.b0 ∷ b.b1 ∷ b.b2 ∷ b.b3 ∷ b.b4 ∷ b.b5 ∷ b.b6 ∷ b.b7 ∷ []

module _ {X : Type 0} where
  -- A device and ESPHome after a call of one of its methods.
  abbrev pub put_device : ℕ → Device → Reaction X → World X → Reaction (World X)
  put_device self d r w = record {
    world = record w { devices = set w.devices self d; rest = r.world };
    publications = r.publications;
  }

  module _ (fw : Framework X) where
    unfoldable pub device_command : ℕ → TypedValue → Device → World X → Status × Reaction (World X)
    device_command self value (Device.switch s) w =
        let (status, (s', r)) = Switch.command fw self value s w.rest in
        (status, put_device self (Device.switch s') r w)
    device_command self value (Device.light l) w =
        let (status, r) = Light.command fw value l w.rest in
        (status, put_device self (Device.light l) r w)

    unfoldable pub device_state : ℕ → TypedValue → ℕ → Device → World X → Reaction (World X)
    device_state self value quality (Device.switch s) w =
        let (s', r) = Switch.on_state fw self value quality s w.rest in
        put_device self (Device.switch s') r w
    device_state self value quality (Device.light l) w = quiet w

    unfoldable pub device_action : ℕ → ℕ → Device → World X → Reaction (World X)
    device_action self action (Device.switch s) w =
        let (s', r) = Switch.apply_event_action fw self action s w.rest in
        put_device self (Device.switch s') r w
    device_action self action (Device.light l) w =
        put_device self (Device.light l) (Light.apply_event_action fw action l w.rest) w

    -- A number that names no device stands for no pointer of the program.
    unfoldable pub board_command : ℕ → TypedValue → World X → Status × Reaction (World X)
    board_command handler value w = elim (get_elem? w.devices handler) [
      | none ↦ (Status.unsupported, quiet w)
      | some d ↦ device_command handler value d w
    ]

    unfoldable pub board_state : ℕ → TypedValue → ℕ → World X → Reaction (World X)
    board_state listener value quality w = elim (get_elem? w.devices listener) [
      | none ↦ quiet w
      | some d ↦ device_state listener value quality d w
    ]

    unfoldable pub board_action : ℕ → ℕ → World X → Reaction (World X)
    board_action target action w = elim (get_elem? w.devices target) [
      | none ↦ quiet w
      | some d ↦ device_action target action d w
    ]

    -- `EventSourceBinding::event`; the flags are not read.
    unfoldable pub board_event : ℕ → TypedValue → ℕ → World X → Reaction (World X)
    board_event listener value flags w =
        elim (event_request value (binding_of listener w.devices)) [
          | none ↦ quiet w
          | some (target, action) ↦ board_action target action w
        ]

    -- `HacanComponent::transmit`, `load` and `save`.
    unfoldable pub transmit : RawCanFrame → World X → World X × Bool
    transmit frame w =
        let (x, sent) = fw.send_data frame.can_id frame.extended (frame_data frame.bytes) w.rest in
        (
          record w { rest = x; tx_frames = if sent then u32 (w.tx_frames + 1) else w.tx_frames },
          sent,
        )

    unfoldable pub load : World X → Option ℕ
    load w = elim (fw.load_preference w.rest) [
      | none ↦ none
      | some value ↦ if value == 0 || leb 0x1ff value then none else some value
    ]

    unfoldable pub save : ℕ → World X → World X × Bool
    save address w =
        let (x, saved) = fw.save_preference address w.rest in (record w { rest = x }, saved)

    -- `entity_available`, `entity_unavailable` and `address_conflict` only log. The endpoint and the
    -- entities of a device do not change while the runtime runs.
    abbrev pub board_env : List Device → Env (World X)
    board_env devices = record {
      transmit = transmit;
      load = λ w. (w, load w);
      save = save;
      has_events = true;
      on_entity_available = λ entity node endpoint w. w;
      on_entity_unavailable = λ entity w. w;
      on_address_conflict = λ address w. w;
      endpoint =
          λ handler. elim (get_elem? devices handler) [ none ↦ 0 | some d ↦ device_endpoint d ];
      command = board_command;
      state_entity =
          λ listener. elim (get_elem? devices listener) [ none ↦ 0 | some d ↦ device_entity d ];
      state = board_state;
      event_entity = λ listener. (binding_of listener devices).entity;
      event = board_event;
    }
