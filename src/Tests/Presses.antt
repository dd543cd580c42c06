-- ===== src/Tests/Presses.antt =====
-- A button board and the desk: what one publishes, the other does. The event sources of the lamp.
use esphome_hacan.Base.{
  ◌≡◌, ◌⊎◌, length, set, ◌++◌, refl, true, some, none, [], ◌∷◌, arith, find_slot, replicate,
  get_elem?,
}
use esphome_hacan.Types.{DataType}
use esphome_hacan.TypedValue.{is_valid}
use esphome_hacan.FrameCodec.{RawCanFrame}
use esphome_hacan.Payload.Value.{valid_endpoint}
use esphome_hacan.Runtime.Node.{Node, fresh}
use esphome_hacan.Runtime.Queue.Fifo.{waiting}
use esphome_hacan.Runtime.Directory.{entity_for, own_entity_for}
use esphome_hacan.Runtime.Registry.{owns_endpoint}
use esphome_hacan.Runtime.Publish.{publish_event}
use esphome_hacan.Runtime.Handle.{receive}
use esphome_hacan.Esphome.EventSource.{
  event_request, accepts, no_event_sources, add_event_source, configure, unbound, max_event_sources,
}
use esphome_hacan.Esphome.Switch
use esphome_hacan.Esphome.Board.Listeners.{
  IsBound, bound, bound-add_event_source, binding_of-add_source,
}
use esphome_hacan.Esphome.Framework.{byte_value}
use esphome_hacan.Esphome.Board.{Device, board_env, binding_of, board_event, listener_of}
use esphome_hacan.Esphome.Component.{HacanComponent, new_component}
use esphome_hacan.Esphome.System.{PublishEventAction, new_action, set_hacan, set_endpoint, play}
use esphome_hacan.Esphome.System.Broadcast.{publish_event-heard}
use esphome_hacan.Esphome.System.Press.{CanPress, CanToggle, play_toggles}
use esphome_hacan.Esphome.System.Repeats.{toggled}
use esphome_hacan.Tests.Bus.{uid_b, node_at}
use esphome_hacan.Tests.Desk.{desk, lamp, desk_devices, desk_world, desk_sys}
use esphome_hacan.Tests.Nodes.{empty-IsWellFormed}

-- Node 9 owns entity 6 at endpoint 1.
abbrev button_node : Node
button_node = record (node_at uid_b 9) {
  owned_entities = some (record { entity = 6; node = 0; endpoint = 1 }) ∷ replicate 15 none;
}

publish_event-heard_example :
    let published = publish_event 1 (byte_value DataType.enum8 1) 0 button_node in
    (raw : RawCanFrame) × (published.1 ≡ true)
    × (waiting published.0.event_queue ≡ waiting button_node.event_queue ++ raw ∷ [])
    × ((receive (board_env desk desk_devices) raw 80 desk_sys).world
        ≡ (board_event desk 0 (byte_value DataType.enum8 1) 0 desk_world).world)
unfolding fresh find_slot owns_endpoint valid_endpoint is_valid entity_for own_entity_for binding_of
publish_event-heard_example =
    publish_event-heard (board_env desk desk_devices) 9 1 (byte_value DataType.enum8 1) button_node
      80 6 15 0 desk_sys refl (omega arith) (omega arith) (omega arith) refl refl refl
      empty-IsWellFormed (omega arith) refl refl refl

abbrev press : PublishEventAction
press = set_endpoint 1 (set_hacan true new_action)

abbrev button_component : HacanComponent
button_component = record new_component { runtime = some button_node }

press-CanPress : CanPress press 9 button_node
unfolding fresh find_slot owns_endpoint valid_endpoint
press-CanPress = record {
  own = refl;
  low = omega arith;
  high = omega arith;
  fits = omega arith;
  owns = refl;
  valid = refl;
  formed = empty-IsWellFormed;
  room = omega arith;
}

press-CanToggle : CanToggle press 9 6 0 15 0 0 desk_devices lamp desk_sys
unfolding fresh find_slot entity_for own_entity_for binding_of event_request accepts is_valid
press-CanToggle = record {
  known = refl;
  only = refl;
  watched = refl;
  asked = refl;
  there = refl;
  wired = refl;
  connected = refl;
}

play_toggles_example :
    (raw : RawCanFrame) × (n' : Node) × ((play press button_component).runtime ≡ some n')
    × (waiting n'.event_queue ≡ waiting button_node.event_queue ++ raw ∷ [])
    × (get_elem? (receive (board_env desk desk_devices) raw 80 desk_sys).world.devices 0
        ≡ some (Device.switch (toggled lamp)))
play_toggles_example =
    play_toggles desk press button_component button_node 9 80 6 0 15 0 0 desk_devices lamp desk_sys
      refl refl press-CanPress press-CanToggle

unbound_sources-IsBound : IsBound no_event_sources
unbound_sources-IsBound = record { eight = refl; count_fits = omega arith }

bound-add_event_source_example :
    let added = add_event_source 0 6 1 2 no_event_sources in
    ((added.1 ≡ some (length (bound no_event_sources)))
      × (bound added.0 ≡ bound no_event_sources ++ configure 6 1 2 (some 0) unbound ∷ [])
      × IsBound added.0)
    ⊎ ((length (bound no_event_sources) ≡ max_event_sources) × (added ≡ (no_event_sources, none)))
bound-add_event_source_example =
    bound-add_event_source 0 6 1 2 no_event_sources unbound_sources-IsBound

-- A second source for the lamp, which turns it off.
lamp_sources-IsBound : IsBound lamp.event_sources
lamp_sources-IsBound = record { eight = refl; count_fits = omega arith }

binding_of-add_source_example :
    binding_of
      (listener_of 0 1)
      (set desk_devices 0 (Device.switch (Switch.add_source desk 0 8 1 2 lamp).0))
    ≡ configure 8 1 2 (some 0) unbound
unfolding Switch.add_source add_event_source
binding_of-add_source_example =
    binding_of-add_source desk 0 8 1 2 1 lamp desk_devices lamp_sources-IsBound refl refl
