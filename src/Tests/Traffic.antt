-- ===== src/Tests/Traffic.antt =====
-- What a node sends, and who hears it.
use esphome_hacan.Base.{
  u32, ◌≤◌, ◌+◌, packed, ℕ, ◌≡◌, refl, true, some, none, List, [], ◌∷◌, ◌++◌, arith, replicate,
  length, take, drop, find_slot,
}
use esphome_hacan.Types.{DataType}
use esphome_hacan.TypedValue.{is_valid}
use esphome_hacan.FrameCodec.{RawCanFrame, encode}
use esphome_hacan.CanIdentifier.{create, to_raw}
use esphome_hacan.WirePayload.{validate, valid_identifier, priority, valid_bytes}
use esphome_hacan.Payload.State
use esphome_hacan.Payload.Value.{valid_endpoint, write_value}
use esphome_hacan.Runtime.Queue.{add}
use esphome_hacan.Runtime.Send.{next_sequence}
use esphome_hacan.Runtime.Transmit.{enqueue, enqueue_raw, enqueue_state, coalesce_from, add_to}
use esphome_hacan.Runtime.Node.{EntityLocation, Node, fresh}
use esphome_hacan.Runtime.Registry.{owns_endpoint}
use esphome_hacan.Runtime.Queue.Fifo.{waiting}
use esphome_hacan.Runtime.Directory.{entity_for, own_entity_for}
use esphome_hacan.Runtime.Publish.{publish_state}
use esphome_hacan.Runtime.Transmit.Pending.{Joins}
use esphome_hacan.Runtime.Transmit.Backlog.{backlog, QueuesFit}
use esphome_hacan.Runtime.Tick.Quiet.{run_ticks}
use esphome_hacan.Runtime.Uid.{claim_interval}
use esphome_hacan.Runtime.Tick.Spoken.{entity_claims}
use esphome_hacan.Runtime.Tick.Started.{Starts, claim_raw, heartbeat_raw}
use esphome_hacan.Runtime.Tick.Startup.{run_ticks-Starts}
use esphome_hacan.Runtime.Tick.Emptied.{Records, run_ticks-backlog}
use esphome_hacan.Runtime.Handle.{receive}
use esphome_hacan.Esphome.Framework.{byte_value}
use esphome_hacan.Esphome.System.Heard.{state_frame, publish_state-heard}
use esphome_hacan.Tests.Bus.{Bus, bus, uid_a, uid_b, node_at, alone}
use esphome_hacan.Tests.Nodes.{two_frames, empty-IsWellFormed, two_frames-IsWellFormed}

-- Node 9 owns entity 6 at endpoint 1, and node 5 listens to that entity.
abbrev sensor_node : Node
sensor_node = record (node_at uid_b 9) {
  owned_entities = some (record { entity = 6; node = 0; endpoint = 1 }) ∷ replicate 15 none;
}

abbrev display_node : Node
display_node = record (node_at uid_a 5) {
  entities = some (record { entity = 6; node = 9; endpoint = 1 }) ∷ replicate 31 none;
  state_listeners = some 6 ∷ replicate 15 none;
}

published : (publish_state 1 (byte_value DataType.bool 1) 1 sensor_node).1 ≡ true
unfolding fresh find_slot owns_endpoint valid_endpoint is_valid publish_state State.create
    State.encode write_value create next_sequence enqueue encode validate valid_identifier priority
    valid_bytes to_raw enqueue_raw enqueue_state coalesce_from add_to add
published = refl

publish_state-heard_example :
    let value = byte_value DataType.bool 1 in
    let published = (publish_state 1 value 1 sensor_node).0 in
    (raw : RawCanFrame) × Joins
      (state_frame 9 0 1 value 1)
      raw
      (waiting sensor_node.state_queue)
      (waiting published.state_queue)
    × ((receive bus raw 80 (alone display_node)).world ≡ (bus.state 6 value 1 []).world)
unfolding fresh find_slot owns_endpoint valid_endpoint is_valid entity_for own_entity_for
publish_state-heard_example =
    publish_state-heard bus 9 1 1 (byte_value DataType.bool 1) sensor_node 80 6 15 6
      (alone display_node) refl empty-IsWellFormed published refl refl refl

-- The bus keeps its frames newest first.
abbrev oldest_first : Bus → List RawCanFrame
oldest_first [] = []
oldest_first (raw ∷ w) = oldest_first w ++ raw ∷ []

bus-Records : Records bus oldest_first
bus-Records = record {
  accepts = λ raw w. refl;
  appends = λ raw w. refl;
  ignores = λ entity w. refl;
}

-- A node that has claimed its address and owns nothing, with two events waiting.
abbrev quiet_node : Node
quiet_node = record (node_at uid_a 5) {
  claims_sent = 2;
  claim_schedule_initialized = true;
  owned_claim_index = 16;
  observed_resolve_index = 16;
  next_heartbeat_ms = 30000;
  event_queue = two_frames;
}

quiet-QueuesFit : QueuesFit quiet_node
unfolding fresh
quiet-QueuesFit = (
  empty-IsWellFormed, two_frames-IsWellFormed, empty-IsWellFormed, empty-IsWellFormed,
  empty-IsWellFormed,
)

abbrev times : List ℕ
times = 100 ∷ 200 ∷ 300 ∷ []

run_ticks-backlog_example :
    (backlog (run_ticks bus times (alone quiet_node)).node
      ≡ drop (length times) (backlog quiet_node))
    × (oldest_first (run_ticks bus times (alone quiet_node)).world
        ≡ oldest_first [] ++ take (length times) (backlog quiet_node))
unfolding fresh
run_ticks-backlog_example =
    run_ticks-backlog bus oldest_first bus-Records times 30000 (alone quiet_node)
      (refl, refl, refl, omega arith, omega arith, omega arith) quiet-QueuesFit
      (omega arith, (omega arith, (omega arith, tt)))

abbrev lamp_entity : EntityLocation
lamp_entity = record { entity = 6; node = 0; endpoint = 1 }

abbrev door_entity : EntityLocation
door_entity = record { entity = 0x01020003; node = 0; endpoint = 2 }

-- A node that starts with an address and two entities.
abbrev new_owner : Node
new_owner = record (node_at uid_a 5) {
  claim_schedule_initialized = true;
  next_claim_ms = 40;
  owned_entities = packed (lamp_entity ∷ door_entity ∷ []) 14;
}

new_owner-Starts : Starts 5 0 40 0 uid_a (lamp_entity ∷ door_entity ∷ []) 14 new_owner
unfolding fresh
new_owner-Starts = record {
  opens = (refl, refl, refl, refl, refl, refl, refl, refl, refl);
  numbered = refl;
  fits = (
    empty-IsWellFormed, empty-IsWellFormed, empty-IsWellFormed, empty-IsWellFormed,
    empty-IsWellFormed,
  );
  idle = refl;
}

second_due : u32 (40 + claim_interval uid_a) ≤ 500
unfolding claim_interval
second_due = omega arith

run_ticks-Starts_example :
    oldest_first (run_ticks bus (50 ∷ 500 ∷ 510 ∷ 520 ∷ 530 ∷ []) (alone new_owner)).world
    ≡ oldest_first []
      ++ claim_raw 5 uid_a
        ∷ claim_raw 5 uid_a
        ∷ heartbeat_raw 5 0
        ∷ entity_claims 5 1 (lamp_entity ∷ door_entity ∷ [])
run_ticks-Starts_example =
    run_ticks-Starts bus oldest_first bus-Records 50 500 510 (520 ∷ 530 ∷ []) 5 40 0 14 uid_a
      (lamp_entity ∷ door_entity ∷ []) (alone new_owner) (omega arith) (omega arith)
      (
        (omega arith, omega arith, omega arith, omega arith),
        ((omega arith, omega arith, omega arith, omega arith), tt),
      )
      (omega arith) (omega arith) second_due (omega arith) (omega arith, (omega arith, tt)) refl
      new_owner-Starts
