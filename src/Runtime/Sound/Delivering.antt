-- ===== src/Runtime/Sound/Delivering.antt =====
-- The branches of `handle` that tell handlers and listeners, and those about entities and
-- discovery, leave the runtime sound.
use esphome_hacan.Base.{
  ℕ, ◌==◌, ◌&&◌, inl, inr, some, none, Option, List, [], ◌∷◌, arith, Bytes8, Option-cases,
  Bool-cases, find_slot, fill_slot, fill_slot-Distinct, clear-Distinct,
}
use esphome_hacan.Types.{Status}
use esphome_hacan.TypedValue.{TypedValue}
use esphome_hacan.FrameCodec.{ProtocolFrame}
use esphome_hacan.Runtime.Env.{Env}
use esphome_hacan.Runtime.Node.{Sys, EntityLocation}
use esphome_hacan.Runtime.Uid.{u32_le}
use esphome_hacan.Runtime.Directory.{entity_for, learn_entity}
use esphome_hacan.Runtime.Registry.{endpoint_handler}
use esphome_hacan.Runtime.Duplicates.{same_command, is_recent, set_duplicate_status}
use esphome_hacan.Runtime.Handle.{
  typed_value, notify_state_listeners, handle_state, notify_event_listeners, handle_event, execute,
  run_command, handle_command, handle_discovery_response,
}
use esphome_hacan.Runtime.Handle.AtMostOnce.{run_command-executes, run_command-repeats}
use esphome_hacan.Runtime.Sound.{IsSound, same_entity}
use esphome_hacan.Runtime.Sound.Sending.{assign-IsSound}
use esphome_hacan.Runtime.Sound.Handling.{acknowledge-IsSound, either-IsSound, react-IsSound}

module _ {W : Type 0} (env : Env W) where
  notify_state_listeners-IsSound :
      (entity : ℕ) (value : TypedValue) (quality : ℕ) (slots : List (Option ℕ)) (s : Sys W)
      → IsSound s.node
      → IsSound (notify_state_listeners env entity value quality slots s).node
  unfolding notify_state_listeners
  notify_state_listeners-IsSound entity value quality [] s sound = sound
  notify_state_listeners-IsSound entity value quality (none ∷ slots) s sound =
      notify_state_listeners-IsSound entity value quality slots s sound
  notify_state_listeners-IsSound entity value quality (some l ∷ slots) s sound =
      notify_state_listeners-IsSound entity value quality slots _ (
        either-IsSound (env.state_entity l == entity) _ s
          (react-IsSound env (env.state l value quality s.world) s sound) sound)

  notify_event_listeners-IsSound :
      (entity : ℕ) (value : TypedValue) (flags : ℕ) (slots : List (Option ℕ)) (s : Sys W)
      → IsSound s.node
      → IsSound (notify_event_listeners env entity value flags slots s).node
  unfolding notify_event_listeners
  notify_event_listeners-IsSound entity value flags [] s sound = sound
  notify_event_listeners-IsSound entity value flags (none ∷ slots) s sound =
      notify_event_listeners-IsSound entity value flags slots s sound
  notify_event_listeners-IsSound entity value flags (some l ∷ slots) s sound =
      notify_event_listeners-IsSound entity value flags slots _ (
        either-IsSound (env.event_entity l == entity) _ s
          (react-IsSound env (env.event l value flags s.world) s sound) sound)

  pub handle_state-IsSound :
      (source : ℕ) (bytes : Bytes8) (s : Sys W)
      → IsSound s.node
      → IsSound (handle_state env source bytes s).node
  unfolding handle_state
  handle_state-IsSound source bytes s sound =
      elim (Option-cases (entity_for source bytes.b1 s.node)) [
        | inl e ↦ simp (e, handle_state) sound
        | inr (entity, e) ↦
            simp (e, handle_state)
              (notify_state_listeners-IsSound entity (typed_value bytes) bytes.b3
                s.node.state_listeners s sound)
      ]

  pub handle_event-IsSound :
      (frame : ProtocolFrame) (s : Sys W) → IsSound s.node → IsSound (handle_event env frame s).node
  unfolding handle_event
  handle_event-IsSound frame s sound =
      let bytes = frame.payload.bytes in
      elim (Option-cases (entity_for frame.identifier.source bytes.b1 s.node)) [
        | inl e ↦ ground (arith, acknowledge-IsSound frame Status.accepted s.node sound)
        | inr (entity, e) ↦
            let slots = s.node.event_listeners in
            let heard = notify_event_listeners env entity (typed_value bytes) bytes.b3 slots s in
            ground (
              arith,
              acknowledge-IsSound frame Status.accepted heard.node,
              notify_event_listeners-IsSound entity (typed_value bytes) bytes.b3 slots s sound,
            )
      ]

  execute-IsSound :
      (bytes : Bytes8) (s : Sys W) → IsSound s.node → IsSound (execute env bytes s).1.node
  unfolding execute
  execute-IsSound bytes s sound = elim (Option-cases (endpoint_handler env bytes.b1 s.node)) [
    | inl e ↦ simp (e, execute) sound
    | inr (h, e) ↦ simp (e, execute) (react-IsSound env _ s sound)
  ]

  run_command-IsSound :
      (frame : ProtocolFrame) (now : ℕ) (s : Sys W)
      → IsSound s.node
      → IsSound (run_command env frame now s).1.node
  unfolding set_duplicate_status
  run_command-IsSound frame now s sound =
      elim (Option-cases
        (find_slot (λ r. same_command frame r && is_recent now r) s.node.duplicates)) [
          | inl e ↦
              simp (run_command-executes env frame now s e)
                (execute-IsSound frame.payload.bytes _ sound)
          | inr (r, e) ↦ simp (run_command-repeats env frame now s r e) sound
        ]

  pub handle_command-IsSound :
      (frame : ProtocolFrame) (now : ℕ) (s : Sys W)
      → IsSound s.node
      → IsSound (handle_command env frame now s).node
  unfolding handle_command
  handle_command-IsSound frame now s sound =
      let run = run_command env frame now s in
      ground
        (arith, run_command-IsSound frame now s sound, acknowledge-IsSound frame run.0 run.1.node)

  pub handle_discovery_response-IsSound :
      (frame : ProtocolFrame) (s : Sys W)
      → IsSound s.node
      → IsSound (handle_discovery_response env frame s).node
  unfolding handle_discovery_response
  handle_discovery_response-IsSound frame s sound =
      ground (arith, assign-IsSound env frame.payload.bytes s sound)

  pub learn_entity-IsSound :
      (source : ℕ) (bytes : Bytes8) (s : Sys W)
      → IsSound s.node
      → IsSound (learn_entity env source bytes s).node
  unfolding learn_entity
  learn_entity-IsSound source bytes s sound =
      let value = u32_le bytes.b2 bytes.b3 bytes.b4 bytes.b5 in
      let location : EntityLocation = record {
        entity = value;
        node = source;
        endpoint = bytes.b1;
      } in
      let n = s.node in
      elim (Option-cases (find_slot (λ e. e.entity == value) n.entities)) [
        | inl unknown ↦ elim (Option-cases (fill_slot location n.entities)) [
          | inl full ↦ simp (unknown, full, learn_entity) sound
          | inr (slots, filled) ↦
              let distinct =
                fill_slot-Distinct same_entity location n.entities slots (λ x y. ground arith)
                  unknown filled sound.2 in
              simp (unknown, filled, learn_entity) (sound.0, sound.1, distinct, sound.3, sound.4)
        ]
        | inr (entry, known) ↦
            elim (Bool-cases (entry.node == source && entry.endpoint == bytes.b1)) [
              | inl same ↦ simp (known, same, learn_entity) sound
              | inr moved ↦
                  let distinct =
                    clear-Distinct same_entity (λ e. e.entity == value) n.entities sound.2 in
                  simp (known, moved, learn_entity) (sound.0, sound.1, distinct, sound.3, sound.4)
            ]
      ]
