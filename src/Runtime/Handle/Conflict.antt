-- ===== src/Runtime/Handle/Conflict.antt =====
-- Two nodes that claim one address.
use esphome_hacan.Base.{
  ℕ, ◌≡◌, ◌≢◌, ◌⊎◌, inl, inr, ap, sym, true, false, some, none, arith, Bytes8, Bool-cases,
}
use esphome_hacan.Types.{MessageKind, kind_code}
use esphome_hacan.FrameCodec.{ProtocolFrame}
use esphome_hacan.Runtime.Env.{Env}
use esphome_hacan.Runtime.Uid.{Uid, uid_at_0, same_uid, lower_uid}
use esphome_hacan.Runtime.Uid.Order.{IsUid, same_uid_iff, lower_uid_total}
use esphome_hacan.Runtime.Node.{Node, Sys, store}
use esphome_hacan.Runtime.Directory.{withdraw_address}
use esphome_hacan.Runtime.Send.{send_address_conflict}
use esphome_hacan.Runtime.Settled.{settled, settled-send_address_conflict}
use esphome_hacan.Runtime.Handle.{handle, handle_address_claim, lose_address, note_source}

address-of_settled : (n m : Node) → settled n ≡ settled m → n.address ≡ m.address
unfolding settled
address-of_settled n m e = ap (λ (k : Node). k.address) e

send_address_conflict-address :
    (u : Uid) (n : Node) → (send_address_conflict u n).address ≡ n.address
send_address_conflict-address u n = address-of_settled _ n (settled-send_address_conflict u n)

module _ {W : Type 0} (env : Env W) where
  handle_address_claim_keeps :
      (s : Sys W) (a : ℕ) (bytes : Bytes8)
      → s.node.address ≡ some a
      → lower_uid s.node.uid (uid_at_0 bytes) ≡ true
      → (handle_address_claim env a bytes s).node.address ≡ some a
  unfolding handle_address_claim
  handle_address_claim_keeps s a bytes e w = ground (
    arith,
    send_address_conflict-address s.node.uid
        (record (s.node) { allocated = store a true s.node.allocated }),
  )

  handle_address_claim_loses :
      (s : Sys W) (a : ℕ) (bytes : Bytes8)
      → s.node.address ≡ some a
      → same_uid (uid_at_0 bytes) s.node.uid ≡ false
      → lower_uid s.node.uid (uid_at_0 bytes) ≡ false
      → (handle_address_claim env a bytes s).node.address ≡ none
  unfolding handle_address_claim lose_address withdraw_address
  handle_address_claim_loses s a bytes e d w = ground arith

  -- `handle` on an address claim.
  handle-address_claim :
      (frame : ProtocolFrame) (now : ℕ) (s : Sys W)
      → frame.identifier.kind ≡ kind_code MessageKind.address_claim
      → handle env frame now s
        ≡ handle_address_claim env frame.identifier.source frame.payload.bytes
            (record s { node = note_source frame.identifier.source now s.node })
  unfolding handle
  handle-address_claim frame now s k = ground arith

pub note_source-kept :
    (source now : ℕ) (n : Node)
    → ((note_source source now n).address ≡ n.address) × ((note_source source now n).uid ≡ n.uid)
unfolding note_source
note_source-kept source now n = ground arith

-- A claim from a source address: the frame's kind, its source and the claimant's UID.
pub record IsClaim (frame : ProtocolFrame) (address : ℕ) (uid : Uid) : Type 0 where
  pub kind : frame.identifier.kind ≡ kind_code MessageKind.address_claim
  pub source : frame.identifier.source ≡ address
  pub claimant : uid_at_0 frame.payload.bytes ≡ uid

module _ {W : Type 0} (env : Env W) where
  handle_claim_keeps :
      (frame : ProtocolFrame) (now a : ℕ) (s : Sys W) (u : Uid)
      → IsClaim frame a u
      → s.node.address ≡ some a
      → lower_uid s.node.uid u ≡ true
      → (handle env frame now s).node.address ≡ some a
  handle_claim_keeps frame now a s u c e w = ground (
    arith,
    handle-address_claim env frame now s c.kind,
    note_source-kept frame.identifier.source now s.node,
    handle_address_claim_keeps env
        (record s { node = note_source frame.identifier.source now s.node }) a frame.payload.bytes,
  )

  handle_claim_loses :
      (frame : ProtocolFrame) (now a : ℕ) (s : Sys W) (u : Uid)
      → IsClaim frame a u
      → s.node.address ≡ some a
      → u ≢ s.node.uid
      → lower_uid s.node.uid u ≡ false
      → (handle env frame now s).node.address ≡ none
  handle_claim_loses frame now a s u c e d w = ground (
    arith,
    handle-address_claim env frame now s c.kind,
    note_source-kept frame.identifier.source now s.node,
    same_uid_iff u s.node.uid,
    Bool-cases (same_uid u s.node.uid),
    handle_address_claim_loses env
        (record s { node = note_source frame.identifier.source now s.node }) a frame.payload.bytes,
  )

-- Two nodes with different UIDs hold one address, and each receives the other's claim: exactly one
-- of them keeps the address, whatever their environments do.
pub conflict_decided :
    {W : Type 0} (env₁ env₂ : Env W) (s t : Sys W) (claim₁ claim₂ : ProtocolFrame) (a now₁ now₂ : ℕ)
    → IsUid s.node.uid
    → IsUid t.node.uid
    → s.node.uid ≢ t.node.uid
    → s.node.address ≡ some a
    → t.node.address ≡ some a
    → IsClaim claim₁ a s.node.uid
    → IsClaim claim₂ a t.node.uid
    → (((handle env₁ claim₂ now₁ s).node.address ≡ some a)
        × ((handle env₂ claim₁ now₂ t).node.address ≡ none))
      ⊎ (((handle env₁ claim₂ now₁ s).node.address ≡ none)
          × ((handle env₂ claim₁ now₂ t).node.address ≡ some a))
conflict_decided env₁ env₂ s t claim₁ claim₂ a now₁ now₂ hs ht ne es et c₁ c₂ =
    elim (lower_uid_total s.node.uid t.node.uid hs ht ne) [
      | inl (w, l) ↦ inl (
        handle_claim_keeps env₁ claim₂ now₁ a s t.node.uid c₂ es w,
        handle_claim_loses env₂ claim₁ now₂ a t s.node.uid c₁ et ne l,
      )
      | inr (l, w) ↦ inr (
        handle_claim_loses env₁ claim₂ now₁ a s t.node.uid c₂ es (λ e. ne (sym e)) l,
        handle_claim_keeps env₂ claim₁ now₂ a t s.node.uid c₁ et w,
      )
    ]
