-- ===== src/Tests/Nodes.antt =====
-- The node runtime on a bus that takes every frame.
use esphome_hacan.Base.{
  ◌<◌, ◌≡◌, ◌⊎◌, refl, true, false, some, none, [], ◌∷◌, ◌++◌, arith, find_slot, replicate, packed,
}
use esphome_hacan.Types.{Status}
use esphome_hacan.Runtime.Node.{Node, Duplicate, fresh, store}
use esphome_hacan.Runtime.Queue.{FrameQueue, add, empty, blank_frame, capacity}
use esphome_hacan.Runtime.Queue.Fifo.{IsWellFormed, waiting, waiting-add}
use esphome_hacan.Runtime.Directory.{next_free_address}
use esphome_hacan.Runtime.Directory.Addresses.{IsLeastFree, next_free_address-IsLeastFree}
use esphome_hacan.Runtime.Handle.{handle, run_command}
use esphome_hacan.Runtime.Handle.Conflict.{conflict_decided}
use esphome_hacan.Runtime.Handle.AtMostOnce.{Runs, run_command_once}
use esphome_hacan.Runtime.Handle.StaleRecords.{stale_record_answers}
use esphome_hacan.Tests.Bus.{bus, uid_a, uid_b, node_at, alone, claim_of, switch_on}

conflict_decided_example :
    (((handle bus (claim_of uid_b 5) 10 (alone (node_at uid_a 5))).node.address ≡ some 5)
      × ((handle bus (claim_of uid_a 5) 20 (alone (node_at uid_b 5))).node.address ≡ none))
    ⊎ (((handle bus (claim_of uid_b 5) 10 (alone (node_at uid_a 5))).node.address ≡ none)
        × ((handle bus (claim_of uid_a 5) 20 (alone (node_at uid_b 5))).node.address ≡ some 5))
unfolding fresh
conflict_decided_example =
    conflict_decided bus bus (alone (node_at uid_a 5)) (alone (node_at uid_b 5)) (claim_of uid_a 5)
      (claim_of uid_b 5) 5 10 20 (omega arith) (omega arith) (λ e. ground arith) refl refl
      (record { kind = refl; source = refl; claimant = refl })
      (record { kind = refl; source = refl; claimant = refl })

-- Addresses 1 and 2 are taken.
abbrev crowded : Node
crowded = record (node_at uid_a 1) { allocated = store 2 true (store 1 true (λ j. false)) }

next_free_address-IsLeastFree_example :
    IsLeastFree crowded.allocated 1 0x1ff (next_free_address crowded)
next_free_address-IsLeastFree_example = next_free_address-IsLeastFree crowded

pub empty-IsWellFormed : IsWellFormed empty
empty-IsWellFormed = record { eight_slots = refl; count_fits = omega arith }

waiting-add_example :
    ((empty.count < capacity)
      × ((add blank_frame empty).1 ≡ true)
      × (waiting (add blank_frame empty).0 ≡ waiting empty ++ blank_frame ∷ []))
    ⊎ ((empty.count ≡ capacity)
        × ((add blank_frame empty).1 ≡ false)
        × ((add blank_frame empty).0 ≡ empty))
waiting-add_example = waiting-add blank_frame empty empty-IsWellFormed

abbrev pub two_frames : FrameQueue
two_frames = record { slots = replicate 8 blank_frame; count = 2 }

pub two_frames-IsWellFormed : IsWellFormed two_frames
two_frames-IsWellFormed = record { eight_slots = refl; count_fits = omega arith }

-- Node 7 with a handler at endpoint 3.
abbrev pub switch_node : Node
switch_node = record (node_at uid_a 7) { endpoint_handlers = some 3 ∷ replicate 15 none }

run_command_once_example :
    Runs bus switch_on 100 (alone switch_node) (run_command bus switch_on 100 (alone switch_node))
    × (run_command bus switch_on 1500 (run_command bus switch_on 100 (alone switch_node)).1
        ≡ run_command bus switch_on 100 (alone switch_node))
unfolding fresh find_slot
run_command_once_example =
    run_command_once bus switch_on 100 1500 (alone switch_node) (λ e. ground arith) refl
      (omega arith)

-- The same transaction number was used a minute earlier.
abbrev pub old_record : Duplicate
old_record = record {
  source = 9;
  endpoint = 3;
  transaction = 0x34;
  kind = 0x0a;
  seen_ms = 40000;
  status = Status.accepted;
}

abbrev used_node : Node
used_node = record switch_node { duplicates = packed (old_record ∷ []) 15 }

stale_record_answers_example :
    Runs bus switch_on 100000 (alone used_node) (run_command bus switch_on 100000 (alone used_node))
    × (run_command bus switch_on 101500 (run_command bus switch_on 100000 (alone used_node)).1
        ≡ (Status.unsupported, (run_command bus switch_on 100000 (alone used_node)).1))
unfolding find_slot
stale_record_answers_example =
    stale_record_answers bus switch_on 100000 101500 (alone used_node) (old_record ∷ []) 14 refl
      refl refl refl (omega arith)
