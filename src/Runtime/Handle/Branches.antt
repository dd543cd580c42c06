-- ===== src/Runtime/Handle/Branches.antt =====
-- Each branch of `handle` leaves the queues well formed, and the waiting states different.
use esphome_hacan.Base.{
  ℕ, ◌==◌, ◌&&◌, inl, inr, true, false, Bool, some, none, Option, List, [], ◌∷◌, arith, Bytes8,
  Option-cases, if◌then◌else◌, find_slot,
}
use esphome_hacan.Types.{Status}
use esphome_hacan.TypedValue.{TypedValue}
use esphome_hacan.FrameCodec.{ProtocolFrame}
use esphome_hacan.Runtime.Env.{Env, Reaction}
use esphome_hacan.Runtime.Node.{Node, Sys, EntityLocation, store}
use esphome_hacan.Runtime.Transmit.States.{QueuesHold}
use esphome_hacan.Runtime.Handle.{
  handle_entity_resolve_from, handle_entity_resolve, note_source, take_address, lose_address,
  handle_address_claim, handle_address_conflict, handle_address_assign, react, typed_value,
  notify_state_listeners, handle_state, notify_event_listeners, handle_event, execute, run_command,
  handle_command, handle_discovery_response,
}
use esphome_hacan.Runtime.Handle.AtMostOnce.{run_command-executes, run_command-repeats}
use esphome_hacan.Runtime.Fits.{
  send_address_conflict-QueuesHold, send_entity_claim-QueuesHold, acknowledge-QueuesHold,
  publish-QueuesHold,
}
use esphome_hacan.Runtime.Send.{send_entity_claim, assign}
use esphome_hacan.Runtime.Directory.{entity_for, learn_entity, next_free_address}
use esphome_hacan.Runtime.Registry.{endpoint_handler}
use esphome_hacan.Runtime.Duplicates.{same_command, is_recent, set_duplicate_status}

-- A choice between two nodes that both fit.
fits_either :
    (b : Bool) (n m : Node) → QueuesHold n → QueuesHold m → QueuesHold (if b then n else m)
fits_either true n m p q = p
fits_either false n m p q = q

fits_either_system :
    {W : Type 0} (b : Bool) (s t : Sys W)
    → QueuesHold s.node
    → QueuesHold t.node
    → QueuesHold (if b then s else t).node
fits_either_system true s t p q = p
fits_either_system false s t p q = q

handle_entity_resolve_from-QueuesHold :
    (entity : ℕ) (slots : List (Option EntityLocation)) (n : Node)
    → QueuesHold n
    → QueuesHold (handle_entity_resolve_from entity slots n)
unfolding handle_entity_resolve_from
handle_entity_resolve_from-QueuesHold entity [] n fit = fit
handle_entity_resolve_from-QueuesHold entity (none ∷ slots) n fit =
    handle_entity_resolve_from-QueuesHold entity slots n fit
handle_entity_resolve_from-QueuesHold entity (some owned ∷ slots) n fit =
    handle_entity_resolve_from-QueuesHold entity slots _ (
      fits_either (owned.entity == entity) (send_entity_claim entity owned.endpoint n) n
        (send_entity_claim-QueuesHold entity owned.endpoint n fit) fit)

pub note_source-QueuesHold :
    (source now : ℕ) (n : Node) → QueuesHold n → QueuesHold (note_source source now n)
unfolding note_source
note_source-QueuesHold source now n fit = ground arith

module _ {W : Type 0} (env : Env W) where
  lose_address-QueuesHold : (s : Sys W) → QueuesHold s.node → QueuesHold (lose_address env s).node
  unfolding lose_address esphome_hacan.Runtime.Directory.withdraw_address
  lose_address-QueuesHold s fit = elim (Option-cases s.node.address) [
    | inl e ↦ simp (e, lose_address) fit
    | inr (a, e) ↦ simp (e, lose_address) fit
  ]

  pub handle_address_claim-QueuesHold :
      (source : ℕ) (bytes : Bytes8) (s : Sys W)
      → QueuesHold s.node
      → QueuesHold (handle_address_claim env source bytes s).node
  unfolding handle_address_claim
  handle_address_claim-QueuesHold source bytes s fit =
      let n : Node = record (s.node) { allocated = store source true s.node.allocated } in
      ground (
        arith,
        send_address_conflict-QueuesHold s.node.uid n fit,
        lose_address-QueuesHold (record s { node = n }) fit,
      )

  pub handle_address_conflict-QueuesHold :
      (bytes : Bytes8) (s : Sys W)
      → QueuesHold s.node
      → QueuesHold (handle_address_conflict env bytes s).node
  unfolding handle_address_conflict
  handle_address_conflict-QueuesHold bytes s fit = ground (arith, lose_address-QueuesHold s fit)

  pub handle_address_assign-QueuesHold :
      (bytes : Bytes8) (now : ℕ) (s : Sys W)
      → QueuesHold s.node
      → QueuesHold (handle_address_assign env bytes now s).node
  unfolding handle_address_assign take_address
  handle_address_assign-QueuesHold bytes now s fit = ground arith

  react-QueuesHold :
      (r : Reaction W) (s : Sys W) → QueuesHold s.node → QueuesHold (react env r s).node
  unfolding react
  react-QueuesHold r s fit = publish-QueuesHold r.publications s.node fit

  notify_state_listeners-QueuesHold :
      (entity : ℕ) (value : TypedValue) (quality : ℕ) (slots : List (Option ℕ)) (s : Sys W)
      → QueuesHold s.node
      → QueuesHold (notify_state_listeners env entity value quality slots s).node
  unfolding notify_state_listeners
  notify_state_listeners-QueuesHold entity value quality [] s fit = fit
  notify_state_listeners-QueuesHold entity value quality (none ∷ slots) s fit =
      notify_state_listeners-QueuesHold entity value quality slots s fit
  notify_state_listeners-QueuesHold entity value quality (some listener ∷ slots) s fit =
      notify_state_listeners-QueuesHold entity value quality slots _ (
        fits_either_system _ _ s (react-QueuesHold (env.state listener value quality s.world) s fit)
          fit)

  notify_event_listeners-QueuesHold :
      (entity : ℕ) (value : TypedValue) (flags : ℕ) (slots : List (Option ℕ)) (s : Sys W)
      → QueuesHold s.node
      → QueuesHold (notify_event_listeners env entity value flags slots s).node
  unfolding notify_event_listeners
  notify_event_listeners-QueuesHold entity value flags [] s fit = fit
  notify_event_listeners-QueuesHold entity value flags (none ∷ slots) s fit =
      notify_event_listeners-QueuesHold entity value flags slots s fit
  notify_event_listeners-QueuesHold entity value flags (some listener ∷ slots) s fit =
      notify_event_listeners-QueuesHold entity value flags slots _ (
        fits_either_system _ _ s (react-QueuesHold (env.event listener value flags s.world) s fit)
          fit)

  pub handle_state-QueuesHold :
      (source : ℕ) (bytes : Bytes8) (s : Sys W)
      → QueuesHold s.node
      → QueuesHold (handle_state env source bytes s).node
  unfolding handle_state
  handle_state-QueuesHold source bytes s fit =
      elim (Option-cases (entity_for source bytes.b1 s.node)) [
        | inl e ↦ simp (e, handle_state) fit
        | inr (entity, e) ↦
            simp (e, handle_state)
              (notify_state_listeners-QueuesHold entity (typed_value bytes) bytes.b3
                s.node.state_listeners s fit)
      ]

  pub handle_event-QueuesHold :
      (frame : ProtocolFrame) (s : Sys W)
      → QueuesHold s.node
      → QueuesHold (handle_event env frame s).node
  unfolding handle_event
  handle_event-QueuesHold frame s fit =
      let bytes = frame.payload.bytes in
      elim (Option-cases (entity_for frame.identifier.source bytes.b1 s.node)) [
        | inl e ↦ ground (arith, acknowledge-QueuesHold frame Status.accepted s.node fit)
        | inr (entity, e) ↦
            let heard =
              notify_event_listeners env entity (typed_value bytes) bytes.b3 s.node.event_listeners
                s in
            ground (
              arith,
              acknowledge-QueuesHold frame Status.accepted heard.node,
              notify_event_listeners-QueuesHold entity (typed_value bytes) bytes.b3
                  s.node.event_listeners s fit,
            )
      ]

  execute-QueuesHold :
      (bytes : Bytes8) (s : Sys W) → QueuesHold s.node → QueuesHold (execute env bytes s).1.node
  unfolding execute
  execute-QueuesHold bytes s fit = elim (Option-cases (endpoint_handler env bytes.b1 s.node)) [
    | inl e ↦ simp (e, execute) fit
    | inr (h, e) ↦ simp (e, execute) (react-QueuesHold _ s fit)
  ]

  run_command-QueuesHold :
      (frame : ProtocolFrame) (now : ℕ) (s : Sys W)
      → QueuesHold s.node
      → QueuesHold (run_command env frame now s).1.node
  unfolding set_duplicate_status
  run_command-QueuesHold frame now s fit =
      elim (Option-cases
        (find_slot (λ r. same_command frame r && is_recent now r) s.node.duplicates)) [
          | inl e ↦
              simp (run_command-executes env frame now s e)
                (execute-QueuesHold frame.payload.bytes _ fit)
          | inr (r, e) ↦ simp (run_command-repeats env frame now s r e) fit
        ]

  pub handle_command-QueuesHold :
      (frame : ProtocolFrame) (now : ℕ) (s : Sys W)
      → QueuesHold s.node
      → QueuesHold (handle_command env frame now s).node
  unfolding handle_command
  handle_command-QueuesHold frame now s fit =
      let run = run_command env frame now s in
      ground (
        arith,
        run_command-QueuesHold frame now s fit,
        acknowledge-QueuesHold frame run.0 run.1.node,
      )

  assign-QueuesHold :
      (bytes : Bytes8) (s : Sys W) → QueuesHold s.node → QueuesHold (assign env bytes s).node
  unfolding assign
  assign-QueuesHold bytes s fit = elim (Option-cases (next_free_address s.node)) [
    | inl e ↦ simp (e, assign) fit
    | inr (candidate, e) ↦ elim (Option-cases s.node.address) [
      | inl none_yet ↦ ground arith
      | inr (a, own) ↦ ground arith
    ]
  ]

  pub handle_discovery_response-QueuesHold :
      (frame : ProtocolFrame) (s : Sys W)
      → QueuesHold s.node
      → QueuesHold (handle_discovery_response env frame s).node
  unfolding handle_discovery_response
  handle_discovery_response-QueuesHold frame s fit =
      ground (arith, assign-QueuesHold frame.payload.bytes s fit)

  pub learn_entity-QueuesHold :
      (source : ℕ) (bytes : Bytes8) (s : Sys W)
      → QueuesHold s.node
      → QueuesHold (learn_entity env source bytes s).node
  unfolding learn_entity
  learn_entity-QueuesHold source bytes s fit = ground arith

  pub handle_entity_resolve-QueuesHold :
      (bytes : Bytes8) (n : Node) → QueuesHold n → QueuesHold (handle_entity_resolve bytes n)
  unfolding handle_entity_resolve
  handle_entity_resolve-QueuesHold bytes n fit =
      handle_entity_resolve_from-QueuesHold _ n.owned_entities n fit
