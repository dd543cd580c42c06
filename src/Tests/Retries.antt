-- ===== src/Tests/Retries.antt =====
-- Commands that are sent again.
use esphome_hacan.Base.{ℕ, ◌≡◌, refl, some, List, [], ◌∷◌, find_slot, replicate}
use esphome_hacan.FrameCodec.{ProtocolFrame}
use esphome_hacan.Runtime.Node.{Node, fresh}
use esphome_hacan.Runtime.Registry.{endpoint_handler}
use esphome_hacan.Runtime.Handle.{run_command, typed_value}
use esphome_hacan.Runtime.Handle.Forgotten.{forgotten_command_runs}
use esphome_hacan.Tests.Bus.{bus, uid_b, alone, claim_of, switch_on}
use esphome_hacan.Tests.Nodes.{switch_node, old_record}

-- Another command of the same node comes in between, and a claim.
abbrev switch_off : ProtocolFrame
switch_off = record switch_on {
  payload = record (switch_on.payload) {
    bytes = record (switch_on.payload.bytes) { b0 = 0x35; b4 = 0 };
  };
}

abbrev between : List (ProtocolFrame × ℕ)
between = (switch_off, 200) ∷ (claim_of uid_b 9, 300) ∷ []

-- Every slot of the table was taken by a command of long ago.
abbrev full_node : Node
full_node = record switch_node {
  duplicates = replicate 16 (some (record old_record { source = 8 }));
}

forgotten_command_runs_example :
    let t =
      (run_command bus switch_off 200 (run_command bus switch_on 100 (alone full_node)).1).1 in
    ((run_command bus switch_on 300 t).0
      ≡ (bus.command 3 (typed_value switch_on.payload.bytes) t.world).0)
    × ((run_command bus switch_on 300 t).1.world
        ≡ (bus.command 3 (typed_value switch_on.payload.bytes) t.world).1.world)
unfolding fresh find_slot endpoint_handler
forgotten_command_runs_example =
    forgotten_command_runs bus switch_on switch_off 100 200 300 (alone full_node)
      (record old_record { source = 8 }) (replicate 15 (some (record old_record { source = 8 }))) 3
      refl refl refl refl refl refl
