-- ===== src/Tests/Boards.antt =====
-- The theorems on the runtime's tables and on boards, at concrete input.
use esphome_hacan.Base.{
  ℕ, Bool, ◌≡◌, ◌⊎◌, ◌↔◌, ◌<◌, refl, true, false, some, none, Option, List, [], ◌∷◌, ok, arith,
  find_slot, length, packed, get_elem?, replicate, fill_slot,
}
use esphome_hacan.Types.{MessageKind}
use esphome_hacan.TypedValue.{is_valid}
use esphome_hacan.CanIdentifier.{to_raw}
use esphome_hacan.WirePayload.{validate, priority, valid_identifier, valid_bytes}
use esphome_hacan.FrameCodec.{ProtocolFrame, RawCanFrame, encode}
use esphome_hacan.FrameCodec.RoundTrip.{Carries}
use esphome_hacan.Runtime.Node.{Node, Sys, CommissioningRole, fresh, start}
use esphome_hacan.Runtime.Directory.{entity_for, own_entity_for}
use esphome_hacan.Runtime.Handle.{handle}
use esphome_hacan.Runtime.Reachable.{started, called, Call, call}
use esphome_hacan.Runtime.Sound.{IsSound}
use esphome_hacan.Runtime.Sound.Registering.{Reachable-invariant}
use esphome_hacan.Runtime.Transmit.Backlog.{QueuesFit}
use esphome_hacan.Runtime.Transmit.States.{StatesDiffer}
use esphome_hacan.Runtime.Tick.{skip_empty, skip_from}
use esphome_hacan.Runtime.Tick.Skip.{StopsAt, skip_empty-StopsAt}
use esphome_hacan.Runtime.Uid.{lower_uid}
use esphome_hacan.Runtime.Uid.Order.{lower_uid_iff, uid_value}
use esphome_hacan.Esphome.EventSource.{event_request, accepts}
use esphome_hacan.Esphome.Switch.Changes.{drive, changes, last_request, drive-changes}
use esphome_hacan.Esphome.Board.{Device, World, board_env, binding_of, frame_data, transmit}
use esphome_hacan.Esphome.Board.Storage.{board_env-LoadsInRange}
use esphome_hacan.Esphome.Component.{
  OwnedEndpoint, new_component, add_owned_endpoint, add_endpoint, merge_endpoint,
}
use esphome_hacan.Esphome.Component.Configuration.{configure}
use esphome_hacan.Esphome.System.{
  raw_frame, with_runtime, setup, count_malformed, count_received, on_frame,
}
use esphome_hacan.Esphome.System.Frames.{on_frame_decided, on_frame-transmit}
use esphome_hacan.Esphome.System.Ownership.{setup-owned}
use esphome_hacan.Esphome.System.Setup.{configured}
use esphome_hacan.Esphome.System.Reachable.{
  BoardCall, board_call, set_up, did, BoardReachable-RunsHealthy,
}
use esphome_hacan.Esphome.System.Healthy.{RunsHealthy}
use esphome_hacan.Esphome.System.Repeats.{event_toggles_back}
use esphome_hacan.Tests.Bus.{uid_a, uid_b, switch_on}
use esphome_hacan.Tests.Desk.{
  desk, lamp, desk_devices, desk_world, desk_sys, button_press, lamp_endpoint, desk_board,
}

lower_uid_iff_example : (lower_uid uid_b uid_a ≡ true) ↔ (uid_value uid_b < uid_value uid_a)
lower_uid_iff_example =
    lower_uid_iff uid_b uid_a
      (record {
        lt0 = omega arith;
        lt1 = omega arith;
        lt2 = omega arith;
        lt3 = omega arith;
        lt4 = omega arith;
        lt5 = omega arith;
      })
      (record {
        lt0 = omega arith;
        lt1 = omega arith;
        lt2 = omega arith;
        lt3 = omega arith;
        lt4 = omega arith;
        lt5 = omega arith;
      })

abbrev gaps : List (Option ℕ)
gaps = some 4 ∷ none ∷ none ∷ some 9 ∷ none ∷ []

skip_empty-StopsAt_example : StopsAt 1 gaps (skip_empty 1 gaps)
skip_empty-StopsAt_example = skip_empty-StopsAt 1 gaps (omega arith)

skips_to_the_entity : skip_empty 1 gaps ≡ 3
unfolding skip_empty skip_from
skips_to_the_entity = refl

-- CONFIG_GET to node 7.
abbrev config_get : ProtocolFrame
config_get = record {
  identifier = record (switch_on.identifier) { kind = 0x0e };
  payload = record (switch_on.payload) { kind = MessageKind.config_get };
}

abbrev desk_run : Sys (World (List Bool))
desk_run = call (board_env desk desk_devices) Call.drain_next (
    call (board_env desk desk_devices) (Call.tick_at 10)
      (start (board_env desk desk_devices) uid_a CommissioningRole.secondary desk_world))

Reachable-invariant_example :
    QueuesFit desk_run.node × StatesDiffer desk_run.node.state_queue × IsSound desk_run.node
Reachable-invariant_example =
    Reachable-invariant (board_env desk desk_devices) desk_run
      (board_env-LoadsInRange desk desk_devices)
      (called Call.drain_next
        (called (Call.tick_at 10) (started uid_a CommissioningRole.secondary desk_world)))

abbrev requests : List Bool
requests = true ∷ true ∷ false ∷ []

drive-changes_example :
    (drive desk 0 requests lamp [] ≡ drive desk 0 (changes (some false) requests) lamp [])
    × ((drive desk 0 requests lamp []).0.applied_state ≡ last_request (some false) requests)
drive-changes_example = drive-changes desk 0 0 requests lamp [] refl refl

event_toggles_back_example :
    get_elem?
      (handle
        (board_env desk desk_devices)
        button_press
        90
        (handle (board_env desk desk_devices) button_press 40 desk_sys)).world.devices
      0
    ≡ some (Device.switch lamp)
unfolding fresh find_slot entity_for own_entity_for binding_of event_request accepts is_valid
event_toggles_back_example =
    event_toggles_back desk desk_devices button_press 40 90 6 15 0 0 0 false lamp desk_sys refl refl
      refl refl refl refl refl refl refl refl

abbrev switch_on_raw : RawCanFrame
switch_on_raw = record {
  can_id = to_raw switch_on.identifier;
  extended = true;
  dlc = 8;
  bytes = switch_on.payload.bytes;
}

switch_on_encodes : encode switch_on ≡ ok switch_on_raw
unfolding encode validate valid_identifier priority valid_bytes is_valid
switch_on_encodes = refl

abbrev received : List ℕ
received = frame_data switch_on.payload.bytes

on_frame_decided_example :
    ((f : ProtocolFrame) × (false ≡ false)
      × (length received ≡ 8)
      × Carries (raw_frame 5 true received) f
      × (on_frame desk 5 true false received desk_board
          ≡ with_runtime desk (λ env s. handle env f 1000 s) (count_received desk_board)))
    ⊎ (((f : ProtocolFrame)
          → false ≡ false
          → length received ≡ 8
          → ¬ Carries (raw_frame 5 true received) f)
        × (on_frame desk 5 true false received desk_board ≡ count_malformed desk_board))
on_frame_decided_example = on_frame_decided desk 5 true false received desk_board

on_frame-transmit_example :
    let sent = frame_data switch_on.payload.bytes in
    let result = desk.send_data switch_on_raw.can_id true sent [] in
    ((transmit desk switch_on_raw desk_world).1 ≡ result.1)
    × ((transmit desk switch_on_raw desk_world).0.rest ≡ result.0)
    × (on_frame desk switch_on_raw.can_id true false sent desk_board
        ≡ with_runtime desk (λ env s. handle env switch_on 1000 s) (count_received desk_board))
on_frame-transmit_example =
    on_frame-transmit desk desk switch_on desk_world desk_board (omega arith) switch_on_encodes

abbrev owned_slots : List (Option OwnedEndpoint)
owned_slots = some lamp_endpoint ∷ replicate 15 none

configured_once : owned_slots ≡ (configure (lamp_endpoint ∷ []) new_component).owned_endpoints
unfolding configure add_owned_endpoint add_endpoint merge_endpoint fill_slot
configured_once = refl

setup-owned_example :
    (n : Node) × ((setup desk desk_board).component.runtime ≡ some n)
    × (n.owned_entities ≡ packed (configured owned_slots) 15)
setup-owned_example = setup-owned desk (lamp_endpoint ∷ []) desk_board (refl, tt) configured_once

BoardReachable-RunsHealthy_example :
    RunsHealthy (board_call desk BoardCall.looped (setup desk desk_board)).component
BoardReachable-RunsHealthy_example =
    BoardReachable-RunsHealthy desk (board_call desk BoardCall.looped (setup desk desk_board))
      (did BoardCall.looped (set_up desk_board))
