-- ===== src/Runtime/Sound/Receiving.antt =====
-- `handle` and `receive` leave the runtime sound.
use esphome_hacan.Base.{◌≡◌, ◌∙◌, ap, sym, ℕ, inl, inr, true, some, arith, Result-cases}
use esphome_hacan.Types.{MessageKind, kind_code, kind_of_code, kind_of_code-kind_code}
use esphome_hacan.WirePayload.{valid_bytes, validate}
use esphome_hacan.FrameCodec.{RawCanFrame, ProtocolFrame, decode}
use esphome_hacan.FrameCodec.RoundTrip.{IsValid, IsValid-kind, decode_ok_iff}
use esphome_hacan.Runtime.Env.{Env}
use esphome_hacan.Runtime.Node.{Sys}
use esphome_hacan.Runtime.Send.{schedule_discovery_response}
use esphome_hacan.Runtime.Handle.{has_kind, note_source, handle, receive}
use esphome_hacan.Runtime.Sound.{IsSound}
use esphome_hacan.Runtime.Sound.Handling.{
  note_source-IsSound, handle_entity_resolve-IsSound, handle_address_claim-IsSound,
  handle_address_conflict-IsSound, handle_address_assign-IsSound,
}
use esphome_hacan.Runtime.Sound.Delivering.{
  learn_entity-IsSound, handle_state-IsSound, handle_event-IsSound, handle_command-IsSound,
  handle_discovery_response-IsSound,
}

kind_code-injective : (k l : MessageKind) → kind_code k ≡ kind_code l → k ≡ l
kind_code-injective k l e =
    let same : some k ≡ some l =
      sym (kind_of_code-kind_code k) ∙ ap kind_of_code e ∙ kind_of_code-kind_code l in
    cc

valid_assignment :
    (f : ProtocolFrame)
    → IsValid f
    → has_kind MessageKind.address_assign f ≡ true
    → valid_bytes MessageKind.address_assign f.payload.bytes ≡ true
unfolding validate
valid_assignment f v is_assign =
    let same =
      kind_code-injective f.payload.kind MessageKind.address_assign
        (ground (arith, IsValid-kind f v)) in
    ground (arith, v, same)

module _ {W : Type 0} (env : Env W) where
  handle-IsSound :
      (frame : ProtocolFrame) (now : ℕ) (s : Sys W)
      → IsValid frame
      → IsSound s.node
      → IsSound (handle env frame now s).node
  unfolding handle schedule_discovery_response
  handle-IsSound frame now s0 valid sound0 =
      let source = frame.identifier.source in
      let bytes = frame.payload.bytes in
      let s : Sys W = record s0 { node = note_source source now s0.node } in
      let sound : IsSound s.node = note_source-IsSound source now s0.node sound0 in
      ground (
        arith,
        sound,
        handle_address_claim-IsSound env source bytes s sound,
        handle_address_conflict-IsSound env bytes s sound,
        handle_address_assign-IsSound env bytes now s,
        valid_assignment frame valid,
        learn_entity-IsSound env source bytes s sound,
        handle_entity_resolve-IsSound bytes s.node sound,
        handle_state-IsSound env source bytes s sound,
        handle_event-IsSound env frame s sound,
        handle_command-IsSound env frame now s sound,
        handle_discovery_response-IsSound env frame s sound,
      )

  pub receive-IsSound :
      (raw : RawCanFrame) (now : ℕ) (s : Sys W)
      → IsSound s.node
      → IsSound (receive env raw now s).node
  unfolding receive
  receive-IsSound raw now s sound = elim (Result-cases (decode raw)) [
    | inl (frame, e) ↦
        simp (e, receive) (handle-IsSound frame now s ((decode_ok_iff raw frame).0 e).valid sound)
    | inr (x, e) ↦ simp (e, receive) sound
  ]
