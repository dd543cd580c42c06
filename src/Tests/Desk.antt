-- ===== src/Tests/Desk.antt =====
-- A board with one switch on a framework that takes every call: what was written to the output,
-- newest first, is its world.
use esphome_hacan.Base.{Bool, true, false, ◌≡◌, refl, none, some, List, [], ◌∷◌, replicate, packed}
use esphome_hacan.Types.{Priority, MessageKind}
use esphome_hacan.FrameCodec.{ProtocolFrame}
use esphome_hacan.Runtime.Node.{Node, Sys}
use esphome_hacan.Esphome.EventSource.{unbound, add_event_source, configure}
use esphome_hacan.Esphome.Framework.{Framework, quiet}
use esphome_hacan.Esphome.Switch.{
  Switch, new_switch, set_hacan, set_output, set_endpoint, add_source,
}
use esphome_hacan.Esphome.Board.{Device, World}
use esphome_hacan.Esphome.Component.{HacanComponent, OwnedEndpoint, new_component}
use esphome_hacan.Esphome.System.{Board}
use esphome_hacan.Tests.Bus.{uid_a, node_at}

abbrev pub desk : Framework (List Bool)
desk = record {
  send_data = λ id extended bytes x. (x, true);
  load_preference = λ x. some 7;
  save_preference = λ address x. (x, true);
  mac_address = λ x. uid_a;
  millis = λ x. 1000;
  set_output = λ output on x. on ∷ x;
  publish_switch = λ self on x. quiet x;
  publish_sensor = λ self on x. quiet x;
  perform = λ state action x. quiet x;
  light_value = λ state x. false;
}

-- Endpoint 3 and output 0; a press at entity 6 toggles it.
abbrev configured_lamp : Switch
configured_lamp = set_endpoint 3 (set_output (some 0) (set_hacan true new_switch))

abbrev pub lamp : Switch
lamp = record configured_lamp {
  applied_state = some false;
  event_sources = record {
    bindings = record unbound { entity = 6; target = some 0 } ∷ replicate 7 unbound;
    count = 1;
  };
}

event_source_of_lamp :
    (add_source desk 0 6 1 0 configured_lamp).0 ≡ record lamp { applied_state = none }
unfolding add_source add_event_source configure
event_source_of_lamp = refl

abbrev pub desk_devices : List Device
desk_devices = Device.switch lamp ∷ []

abbrev pub desk_world : World (List Bool)
desk_world = record { devices = desk_devices; tx_frames = 0; rest = [] }

-- Node 7 knows the button of node 9 and listens to it.
abbrev desk_node : Node
desk_node = record (node_at uid_a 7) {
  endpoint_handlers = some 0 ∷ replicate 15 none;
  event_listeners = some 0 ∷ replicate 15 none;
  entities = packed (record { entity = 6; node = 9; endpoint = 1 } ∷ []) 31;
}

abbrev pub desk_sys : Sys (World (List Bool))
desk_sys = record { node = desk_node; world = desk_world }

abbrev pub button_press : ProtocolFrame
button_press = record {
  identifier = record {
    priority = Priority.event;
    kind = 0x09;
    destination = 7;
    source = 9;
    hop = 0;
  };
  payload = record {
    kind = MessageKind.event;
    bytes = record { b0 = 0; b1 = 1; b2 = 0x0a; b3 = 0; b4 = 1; b5 = 0; b6 = 0; b7 = 0 };
  };
}

-- The configuration owns one endpoint.
abbrev pub lamp_endpoint : OwnedEndpoint
lamp_endpoint = record { entity = 0x101; endpoint = 3; handler = some 0 }

abbrev pub desk_component : HacanComponent
desk_component = record new_component {
  owned_endpoints = some lamp_endpoint ∷ replicate 15 none;
  event_listeners = some 0 ∷ replicate 15 none;
}

abbrev pub desk_board : Board (List Bool)
desk_board = record { component = desk_component; world = desk_world; sensors = [] }
