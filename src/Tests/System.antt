-- ===== src/Tests/System.antt =====
-- Runs of the whole runtime on a bus that takes every frame.
use esphome_hacan.FrameCodec.{RawCanFrame}
use esphome_hacan.Base.{
  true, none, some, Bytes8, ◌+◌, ◌^◌, ◌≤◌, ◌<◌, ◌≡◌, ◌⊎◌, refl, false, [], arith,
}
use esphome_hacan.Runtime.Node.{Node, Sys, CommissioningRole, fresh, start, store}
use esphome_hacan.Runtime.Queue.{blank_frame}
use esphome_hacan.Runtime.Transmit.{drain_one}
use esphome_hacan.Runtime.Transmit.Backlog.{backlog, QueuesFit, IsServed, drain_one-backlog}
use esphome_hacan.Runtime.Send.{send_heartbeat, assign}
use esphome_hacan.Runtime.Directory.{expire_offline, next_free_address, next_free_from}
use esphome_hacan.Runtime.Directory.Expiry.{heard_lately}
use esphome_hacan.Runtime.Handle.{receive}
use esphome_hacan.Runtime.Handle.Commission.{commissioned}
use esphome_hacan.Runtime.Tick.{tick, tick_entities}
use esphome_hacan.Runtime.Tick.Period.{heartbeat_period}
use esphome_hacan.Runtime.Reachable.{Reachable, started, called, Call, call, Reachable-QueuesFit}
use esphome_hacan.Tests.Bus.{Bus, bus, uid_a, uid_b, node_at, alone}
use esphome_hacan.Tests.Nodes.{two_frames, empty-IsWellFormed, two_frames-IsWellFormed}

-- A node with address 5 whose claims are sent.
abbrev settled_node : Node
settled_node = record (node_at uid_a 5) { claims_sent = 2; claim_schedule_initialized = true }

heartbeat_period_example :
    let t = send_heartbeat bus 5 1000 (alone settled_node) in
    let expired = expire_offline bus 2000 t in
    (((2 ^ 32 ≤ 1000 + 30000) ⊎ (1000 + 30000 ≤ 2000))
      × (tick bus 2000 t ≡ send_heartbeat bus 5 2000 expired))
    ⊎ ((1000 + 30000 < 2 ^ 32)
        × (2000 < 1000 + 30000)
        × (tick bus 2000 t ≡ tick_entities bus expired))
unfolding fresh
heartbeat_period_example =
    heartbeat_period bus 5 1000 2000 (alone settled_node) (refl, refl, refl, refl) (omega arith)
      (omega arith)

-- Two frames wait among the events.
abbrev busy : Sys Bus
busy = alone (record (node_at uid_a 5) { event_queue = two_frames })

busy-QueuesFit : QueuesFit busy.node
unfolding fresh
busy-QueuesFit = (
  empty-IsWellFormed, two_frames-IsWellFormed, empty-IsWellFormed, empty-IsWellFormed,
  empty-IsWellFormed,
)

drain_one-backlog_example :
    ((backlog busy.node ≡ []) × (drain_one bus busy ≡ (busy, false)))
    ⊎ IsServed bus busy (drain_one bus busy)
drain_one-backlog_example = drain_one-backlog bus busy busy-QueuesFit (λ frame. refl)

-- A primary that starts, receives a frame and ticks.
abbrev run : Sys Bus
run =
    call bus (Call.tick_at 10)
      (call bus (Call.receive_frame blank_frame 5) (start bus uid_a CommissioningRole.primary []))

run-Reachable : Reachable bus run
run-Reachable =
    called (Call.tick_at 10)
      (called (Call.receive_frame blank_frame 5) (started uid_a CommissioningRole.primary []))

run-QueuesFit : QueuesFit run.node
run-QueuesFit = Reachable-QueuesFit bus run run-Reachable

-- The primary at address 1 hears a node with another UID, which has no address.
abbrev primary_node : Node
primary_node = record (node_at uid_a 1) { allocated = store 1 true (λ j. false) }

abbrev joining_node : Node
joining_node = fresh uid_b CommissioningRole.no_role none

abbrev response : Bytes8
response = record { b0 = 0; b1 = 1; b2 = 2; b3 = 3; b4 = 4; b5 = 5; b6 = 6; b7 = 0 }

commissioned_example :
    (raw : RawCanFrame) × ((assign bus response (alone primary_node)).world
      ≡ (bus.transmit raw []).0)
    × ((receive bus raw 50 (alone joining_node)).node.address ≡ some 2)
    × (primary_node.allocated 2 ≡ false)
unfolding fresh next_free_address next_free_from
commissioned_example =
    commissioned bus bus (alone primary_node) (alone joining_node) response 1 2 50 refl
      (omega arith) (omega arith) refl refl refl

-- A node that heard of node 9 at 3000 ms.
abbrev listening : Node
listening = record (node_at uid_a 1) {
  seen = store 9 true (λ j. false);
  last_seen = store 9 3000 (λ j. 0);
}

gone_after_105_s : heard_lately 108000 9 listening ≡ false
unfolding fresh
gone_after_105_s = refl
