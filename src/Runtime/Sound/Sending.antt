-- ===== src/Runtime/Sound/Sending.antt =====
-- What the runtime sends leaves it sound.
use esphome_hacan.Base.{
  ℕ, ◌+◌, ◌<◌, ◌≡◌, refl, ap, ◌∙◌, inl, inr, some, arith, u8, Bytes8, bit_xor, Option-cases,
}
use esphome_hacan.Types.{Priority, MessageKind}
use esphome_hacan.Runtime.Uid.{Uid}
use esphome_hacan.Runtime.Env.{Env}
use esphome_hacan.Runtime.Node.{Node, Sys}
use esphome_hacan.Runtime.Transmit.{drain_one}
use esphome_hacan.Runtime.Settled.{settled, settled-drain_one, settled-send, settled-next_sequence}
use esphome_hacan.Runtime.Send.{
  send, send_discovery_response, send_discovery_request, schedule_discovery_response, send_claim,
  send_entity_resolve, send_heartbeat, next_sequence, assign,
}
use esphome_hacan.Runtime.Directory.{next_free_address}
use esphome_hacan.Runtime.Sound.{IsSound, IsSound-of_settled}

settled-send_entity_resolve :
    (entity : ℕ) (n : Node) → settled (send_entity_resolve entity n) ≡ settled n
unfolding send_entity_resolve
settled-send_entity_resolve entity n = elim (Option-cases n.address) [
  | inl e ↦ ground arith
  | inr (a, e) ↦
      simp (e, send_entity_resolve)
        (settled-send _ _ _ _ _ (next_sequence n) ∙ settled-next_sequence n)
]

pub send_entity_resolve-IsSound :
    (entity : ℕ) (n : Node) → IsSound n → IsSound (send_entity_resolve entity n)
send_entity_resolve-IsSound entity n sound =
    IsSound-of_settled _ n (settled-send_entity_resolve entity n) sound

pub send_discovery_response-IsSound :
    (transaction requester : ℕ) (n : Node)
    → IsSound n
    → IsSound (send_discovery_response transaction requester n)
unfolding send_discovery_response
send_discovery_response-IsSound transaction requester n sound =
    IsSound-of_settled _ n (settled-send _ _ _ _ _ n) sound

pub send_discovery_request-IsSound :
    (now : ℕ) (n : Node) → IsSound n → IsSound (send_discovery_request now n)
unfolding send_discovery_request schedule_discovery_response next_sequence
send_discovery_request-IsSound now n sound =
    IsSound-of_settled _ (next_sequence n) (settled-send _ _ _ _ _ (next_sequence n)) sound

claims-of_settled : (m n : Node) → settled m ≡ settled n → m.claims_sent ≡ n.claims_sent
unfolding settled
claims-of_settled m n e = ap (λ (k : Node). k.claims_sent) e

address-of_settled : (m n : Node) → settled m ≡ settled n → m.address ≡ n.address
unfolding settled
address-of_settled m n e = ap (λ (k : Node). k.address) e

abbrev claim_bytes : Uid → Bytes8
claim_bytes u = record {
  b0 = u.u0;
  b1 = u.u1;
  b2 = u.u2;
  b3 = u.u3;
  b4 = u.u4;
  b5 = u.u5;
  b6 = 1;
  b7 = bit_xor u.u0 u.u5;
}

-- A claim counts, and leaves the other fields to the frame that is sent.
send_claim_lem :
    (n : Node) (a : ℕ)
    → n.address ≡ some a
    → (m : Node) × (settled m ≡ settled n)
      × (settled (send_claim n)
          ≡ settled (record m {
            claims_sent = u8 (m.claims_sent + 1);
            next_claim_ms = (send_claim n).next_claim_ms;
          }))
unfolding send_claim
send_claim_lem n a e = (
  send Priority.management MessageKind.address_claim 0x1ff a (claim_bytes n.uid) n,
  settled-send _ _ _ _ _ n,
  simp (e, send_claim) refl,
)

pub send_claim-IsSound :
    (n : Node) (a : ℕ) → n.address ≡ some a → n.claims_sent < 2 → IsSound n → IsSound (send_claim n)
send_claim-IsSound n a e few sound =
    let (m, same, step) = send_claim_lem n a e in
    let kept : IsSound m = IsSound-of_settled m n same sound in
    let claims = claims-of_settled m n same in
    let address = address-of_settled m n same in
    IsSound-of_settled _ _ step (kept.0, ground (arith, claims, address), kept.2, kept.3, kept.4)

module _ {W : Type 0} (env : Env W) where
  pub drain_one-IsSound : (s : Sys W) → IsSound s.node → IsSound (drain_one env s).0.node
  drain_one-IsSound s sound = IsSound-of_settled _ s.node (settled-drain_one env s) sound

  pub send_heartbeat-IsSound :
      (address now : ℕ) (s : Sys W)
      → IsSound s.node
      → IsSound (send_heartbeat env address now s).node
  unfolding send_heartbeat next_sequence
  send_heartbeat-IsSound address now s sound = sound

  pub assign-IsSound :
      (bytes : Bytes8) (s : Sys W) → IsSound s.node → IsSound (assign env bytes s).node
  unfolding assign
  assign-IsSound bytes s sound = elim (Option-cases (next_free_address s.node)) [
    | inl e ↦ simp (e, assign) sound
    | inr (candidate, e) ↦ elim (Option-cases s.node.address) [
      | inl none_yet ↦ ground arith
      | inr (a, own) ↦ ground arith
    ]
  ]
