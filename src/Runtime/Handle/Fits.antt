-- ===== src/Runtime/Handle/Fits.antt =====
-- A received frame leaves the queues well formed, and the waiting states different.
use esphome_hacan.Base.{ℕ, ◌≡◌, inl, inr, true, arith, Result-cases}
use esphome_hacan.Types.{MessageKind}
use esphome_hacan.FrameCodec.{RawCanFrame, ProtocolFrame, decode}
use esphome_hacan.Runtime.Env.{Env}
use esphome_hacan.Runtime.Node.{Node, Sys}
use esphome_hacan.Runtime.Transmit.States.{QueuesHold}
use esphome_hacan.Runtime.Handle.{
  handle_entity_resolve, note_source, handle_address_claim, handle_address_conflict,
  handle_address_assign, handle_state, handle_event, handle_command, handle_discovery_response,
  handle, has_kind, receive,
}
use esphome_hacan.Runtime.Send.{schedule_discovery_response}
use esphome_hacan.Runtime.Directory.{learn_entity}
use esphome_hacan.Runtime.Handle.Branches.{
  note_source-QueuesHold, handle_address_claim-QueuesHold, handle_address_conflict-QueuesHold,
  handle_address_assign-QueuesHold, learn_entity-QueuesHold, handle_entity_resolve-QueuesHold,
  handle_state-QueuesHold, handle_event-QueuesHold, handle_command-QueuesHold,
  handle_discovery_response-QueuesHold,
}

module _ {W : Type 0} (env : Env W) where
  -- What every branch of `handle` establishes, `handle` does.
  pub handle-branches :
      (P : Node → Type 0) (frame : ProtocolFrame) (now : ℕ) (s0 : Sys W)
      → let source = frame.identifier.source in
        let bytes = frame.payload.bytes in
        let s : Sys W = record s0 { node = note_source source now s0.node } in
        P (handle_address_claim env source bytes s).node
        → P (schedule_discovery_response bytes source now s.node)
        → P (handle_address_conflict env bytes s).node
        → P (handle_address_assign env bytes now s).node
        → P (learn_entity env source bytes s).node
        → P (handle_entity_resolve bytes s.node)
        → P (handle_state env source bytes s).node
        → P (handle_event env frame s).node
        → (has_kind MessageKind.command frame ≡ true → P (handle_command env frame now s).node)
        → P (handle_discovery_response env frame s).node
        → P (handle env frame now s0).node
  unfolding handle
  handle-branches P frame now s0 a b c d e f g h i j = ground (arith, a, b, c, d, e, f, g, h, i, j)

  handle-QueuesHold :
      (frame : ProtocolFrame) (now : ℕ) (s : Sys W)
      → QueuesHold s.node
      → QueuesHold (handle env frame now s).node
  unfolding schedule_discovery_response
  handle-QueuesHold frame now s0 fit0 =
      let source = frame.identifier.source in
      let bytes = frame.payload.bytes in
      let s : Sys W = record s0 { node = note_source source now s0.node } in
      let fit : QueuesHold s.node = note_source-QueuesHold source now s0.node fit0 in
      handle-branches QueuesHold frame now s0
        (handle_address_claim-QueuesHold env source bytes s fit) fit
        (handle_address_conflict-QueuesHold env bytes s fit)
        (handle_address_assign-QueuesHold env bytes now s fit)
        (learn_entity-QueuesHold env source bytes s fit)
        (handle_entity_resolve-QueuesHold env bytes s.node fit)
        (handle_state-QueuesHold env source bytes s fit) (handle_event-QueuesHold env frame s fit)
        (λ _. handle_command-QueuesHold env frame now s fit)
        (handle_discovery_response-QueuesHold env frame s fit)

  pub receive-QueuesHold :
      (raw : RawCanFrame) (now : ℕ) (s : Sys W)
      → QueuesHold s.node
      → QueuesHold (receive env raw now s).node
  unfolding receive
  receive-QueuesHold raw now s fit = elim (Result-cases (decode raw)) [
    | inl (frame, e) ↦ simp (e, receive) (handle-QueuesHold frame now s fit)
    | inr (x, e) ↦ simp (e, receive) fit
  ]
