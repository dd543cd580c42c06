-- ===== src/Runtime/Sound/Handling.antt =====
-- A received frame leaves the runtime sound.
use esphome_hacan.Base.{
  ℕ, ◌<◌, ◌≡◌, ◌==◌, refl, ◌∙◌, inl, inr, true, false, Bool, some, none, Option, List, [], ◌∷◌,
  arith, Bytes8, Option-cases, Bool-cases, if◌then◌else◌,
}
use esphome_hacan.Types.{MessageKind, Status}
use esphome_hacan.WirePayload.{valid_bytes, u16_le}
use esphome_hacan.FrameCodec.{ProtocolFrame}
use esphome_hacan.Runtime.Env.{Env, Reaction}
use esphome_hacan.Runtime.Node.{Node, Sys, EntityLocation, store}
use esphome_hacan.Runtime.Directory.{withdraw_address}
use esphome_hacan.Runtime.Send.{send_address_conflict, acknowledge}
use esphome_hacan.Runtime.Settled.{
  settled, settled-send_address_conflict, settled-send_entity_claim, settled-acknowledge,
  settled-publish,
}
use esphome_hacan.Runtime.Handle.{
  handle_entity_resolve_from, handle_entity_resolve, note_source, take_address, lose_address,
  assigned_address, handle_address_claim, handle_address_conflict, handle_address_assign, react,
}
use esphome_hacan.Runtime.Sound.{IsSound, IsSound-of_settled}

send_address_conflict-IsSound : (n m : Node) → IsSound n → IsSound (send_address_conflict m.uid n)
send_address_conflict-IsSound n m sound =
    IsSound-of_settled _ n (settled-send_address_conflict m.uid n) sound

pub acknowledge-IsSound :
    (frame : ProtocolFrame) (status : Status) (n : Node)
    → IsSound n
    → IsSound (acknowledge frame status n)
acknowledge-IsSound frame status n sound =
    IsSound-of_settled _ n (settled-acknowledge frame status n) sound

settled-handle_entity_resolve_from :
    (entity : ℕ) (slots : List (Option EntityLocation)) (n : Node)
    → settled (handle_entity_resolve_from entity slots n) ≡ settled n
unfolding handle_entity_resolve_from
settled-handle_entity_resolve_from entity [] n = refl
settled-handle_entity_resolve_from entity (none ∷ slots) n =
    settled-handle_entity_resolve_from entity slots n
settled-handle_entity_resolve_from entity (some owned ∷ slots) n =
    settled-handle_entity_resolve_from entity slots _
    ∙ ground (arith, settled-send_entity_claim entity owned.endpoint n)

pub handle_entity_resolve-IsSound :
    (bytes : Bytes8) (n : Node) → IsSound n → IsSound (handle_entity_resolve bytes n)
unfolding handle_entity_resolve
handle_entity_resolve-IsSound bytes n sound =
    IsSound-of_settled _ n (settled-handle_entity_resolve_from _ n.owned_entities n) sound

pub note_source-IsSound :
    (source now : ℕ) (n : Node) → IsSound n → IsSound (note_source source now n)
unfolding note_source
note_source-IsSound source now n sound = elim (Bool-cases (source == 0)) [
  | inl zero_source ↦ simp (zero_source, note_source) sound
  | inr other ↦ simp (other, note_source) sound
]

-- The address in a valid assignment is one of a node.
assigned_address-valid :
    (b : Bytes8)
    → valid_bytes MessageKind.address_assign b ≡ true
    → (0 < assigned_address b) × (assigned_address b < 0x1ff)
unfolding valid_bytes u16_le assigned_address
assigned_address-valid b valid = ground arith

withdraw_address-IsSound : (n : Node) → IsSound n → IsSound (withdraw_address n)
unfolding withdraw_address
withdraw_address-IsSound n sound = (tt, refl, sound.2, sound.3, sound.4)

pub either-IsSound :
    {W : Type 0} (b : Bool) (s t : Sys W)
    → IsSound s.node
    → IsSound t.node
    → IsSound (if b then s else t).node
either-IsSound true s t p q = p
either-IsSound false s t p q = q

module _ {W : Type 0} (env : Env W) where
  lose_address-IsSound : (s : Sys W) → IsSound s.node → IsSound (lose_address env s).node
  unfolding lose_address
  lose_address-IsSound s sound = elim (Option-cases s.node.address) [
    | inl e ↦ ground (arith, e, sound)
    | inr (a, e) ↦ ground (arith, e, withdraw_address-IsSound s.node sound)
  ]

  pub handle_address_claim-IsSound :
      (source : ℕ) (bytes : Bytes8) (s : Sys W)
      → IsSound s.node
      → IsSound (handle_address_claim env source bytes s).node
  unfolding handle_address_claim
  handle_address_claim-IsSound source bytes s sound =
      let n : Node = record (s.node) { allocated = store source true s.node.allocated } in
      ground (
        arith,
        send_address_conflict-IsSound n s.node sound,
        lose_address-IsSound (record s { node = n }) sound,
      )

  pub handle_address_conflict-IsSound :
      (bytes : Bytes8) (s : Sys W)
      → IsSound s.node
      → IsSound (handle_address_conflict env bytes s).node
  unfolding handle_address_conflict
  handle_address_conflict-IsSound bytes s sound = ground (arith, lose_address-IsSound s sound)

  pub handle_address_assign-IsSound :
      (bytes : Bytes8) (now : ℕ) (s : Sys W)
      → valid_bytes MessageKind.address_assign bytes ≡ true
      → IsSound s.node
      → IsSound (handle_address_assign env bytes now s).node
  unfolding handle_address_assign take_address
  handle_address_assign-IsSound bytes now s valid sound =
      ground (arith, assigned_address-valid bytes valid)

  pub react-IsSound : (r : Reaction W) (s : Sys W) → IsSound s.node → IsSound (react env r s).node
  unfolding react
  react-IsSound r s sound =
      IsSound-of_settled _ s.node (settled-publish r.publications s.node) sound
