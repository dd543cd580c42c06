-- ===== src/Esphome/System/Commands.antt =====
-- A command from the bus to a switch of the board.
use esphome_hacan.Base.{
  ℕ, Bool, true, ◌&&◌, ◌≡◌, ap, ◌∙◌, inl, inr, some, none, arith, if◌then◌else◌, find_slot,
  Bool-cases,
}
use esphome_hacan.Types.{MessageKind, kind_code}
use esphome_hacan.TypedValue.{TypedValue}
use esphome_hacan.FrameCodec.{ProtocolFrame}
use esphome_hacan.Runtime.Env.{Env}
use esphome_hacan.Runtime.Node.{Node, Sys}
use esphome_hacan.Runtime.Registry.{endpoint_handler}
use esphome_hacan.Runtime.Duplicates.{same_command, is_recent}
use esphome_hacan.Runtime.Handle.{
  handle, handle_command, run_command, execute, react, note_source, typed_value,
}
use esphome_hacan.Runtime.Handle.AtMostOnce.{run_command-executes}
use esphome_hacan.Esphome.Framework.{Framework}
use esphome_hacan.Esphome.Switch
use esphome_hacan.Esphome.Switch.{Switch, is_current, apply_state, change_state}
use esphome_hacan.Esphome.Switch.Changes.{applied_some, apply_state-current, apply_state-changed}

pub note_source-tables :
    (source now : ℕ) (n : Node)
    → ((note_source source now n).duplicates ≡ n.duplicates)
      × ((note_source source now n).endpoint_handlers ≡ n.endpoint_handlers)
unfolding note_source
note_source-tables source now n = ground arith

module _ {W : Type 0} (env : Env W) where
  -- A command to the own address is run; what comes after does not touch the world.
  handle_command-world :
      (frame : ProtocolFrame) (now : ℕ) (s : Sys W)
      → (handle_command env frame now s).world ≡ (run_command env frame now s).1.world
  unfolding handle_command
  handle_command-world frame now s = ground arith

  handle-command :
      (frame : ProtocolFrame) (now : ℕ) (s : Sys W)
      → frame.identifier.kind ≡ kind_code MessageKind.command
      → s.node.address ≡ some frame.identifier.destination
      → handle env frame now s
        ≡ handle_command env frame now
            (record s { node = note_source frame.identifier.source now s.node })
  unfolding handle note_source
  handle-command frame now s k own = ground arith

  run_command-world :
      (frame : ProtocolFrame) (now h : ℕ) (s : Sys W)
      → find_slot (λ r. same_command frame r && is_recent now r) s.node.duplicates ≡ none
      → endpoint_handler env frame.payload.bytes.b1 s.node ≡ some h
      → let result = env.command h (typed_value frame.payload.bytes) s.world in
        ((run_command env frame now s).0 ≡ result.0)
        × ((run_command env frame now s).1.world ≡ result.1.world)
  unfolding execute react endpoint_handler
  run_command-world frame now h s fresh found =
      ground (arith, run_command-executes env frame now s fresh)

  -- A command to the own address that is no copy does to the world what its handler does, and it
  -- has the handler's status.
  pub handle-command_world :
      (frame : ProtocolFrame) (now h : ℕ) (s : Sys W)
      → frame.identifier.kind ≡ kind_code MessageKind.command
      → s.node.address ≡ some frame.identifier.destination
      → find_slot (λ r. same_command frame r && is_recent now r) s.node.duplicates ≡ none
      → endpoint_handler env frame.payload.bytes.b1 s.node ≡ some h
      → (handle env frame now s).world
        ≡ (env.command h (typed_value frame.payload.bytes) s.world).1.world
  unfolding endpoint_handler
  handle-command_world frame now h s k own fresh found =
      let noted : Sys W = record s { node = note_source frame.identifier.source now s.node } in
      let tables = note_source-tables frame.identifier.source now s.node in
      ap (λ (t : Sys W). t.world) (handle-command frame now s k own)
      ∙ handle_command-world frame now noted
      ∙ (run_command-world frame now h noted (simp tables.0 fresh) (simp tables.1 found)).1

module _ {X : Type 0} (fw : Framework X) where
  -- What a request leaves of ESPHome: nothing happens if the state is applied already.
  abbrev pub shown : ℕ → ℕ → Bool → Switch → X → X
  shown self output on s x =
      if is_current s.applied_state on
      then x
      else (fw.publish_switch self on (fw.set_output output on x)).world

  pub apply_state-shown :
      (self output : ℕ) (on : Bool) (s : Switch) (x : X)
      → s.output ≡ some output
      → s.has_hacan ≡ true
      → ((apply_state fw self on s x).0 ≡ record s { applied_state = some on })
        × ((apply_state fw self on s x).1.world ≡ shown self output on s x)
  unfolding change_state
  apply_state-shown self output on s x o c = elim (Bool-cases (is_current s.applied_state on)) [
    | inl current ↦
        let same =
          ap (λ a. record s { applied_state = a }) (applied_some on s.applied_state current) in
        ground (arith, apply_state-current fw self on s x current, same)
    | inr changed ↦ ground (arith, apply_state-changed fw self output on s x o c changed)
  ]
