-- ===== src/Runtime/Tick/Started.antt =====
-- The first ticks of a node that has an address.
use esphome_hacan.Base.{
  ℕ, ◌+◌, ◌≤◌, ◌<◌, ◌≡◌, sym, subst, true, Option, none, some, List, [], arith, ok, packed, u8, u32,
  bit_xor, Bytes8,
}
use esphome_hacan.Types.{Priority, MessageKind, kind_code}
use esphome_hacan.CanIdentifier.{create, to_raw}
use esphome_hacan.WirePayload.{validate, priority, valid_identifier, valid_bytes}
use esphome_hacan.FrameCodec.{RawCanFrame, ProtocolFrame, encode}
use esphome_hacan.Runtime.Env.{Env}
use esphome_hacan.Runtime.Uid.{Uid, claim_interval}
use esphome_hacan.Runtime.Node.{Node, Sys, EntityLocation}
use esphome_hacan.Runtime.Settled.{settled}
use esphome_hacan.Runtime.Send.{send, send_claim, send_heartbeat, transmit_now}
use esphome_hacan.Runtime.Directory.{expire_offline}
use esphome_hacan.Runtime.Transmit.{QueueName, add_to, enqueue, enqueue_raw, drain_one}
use esphome_hacan.Runtime.Transmit.Backlog.{backlog, QueuesFit}
use esphome_hacan.Runtime.Tick.{init_claim_schedule, tick_assigned, tick_scheduled, tick}
use esphome_hacan.Runtime.Tick.Quiet.{expire_from-keeps}

abbrev managed : ℕ → MessageKind → Bytes8 → ProtocolFrame
managed a kind bytes = record {
  identifier = record {
    priority = Priority.management;
    kind = kind_code kind;
    destination = 0x1ff;
    source = a;
    hop = 0;
  };
  payload = record { kind = kind; bytes = bytes };
}

abbrev managed_raw : ℕ → MessageKind → Bytes8 → RawCanFrame
managed_raw a kind bytes = record {
  can_id = to_raw (managed a kind bytes).identifier;
  extended = true;
  dlc = 8;
  bytes = bytes;
}

-- The claim of an address by the node with the UID, and its heartbeat.
abbrev pub claim_raw : ℕ → Uid → RawCanFrame
claim_raw a u = managed_raw a MessageKind.address_claim (record {
  b0 = u.u0;
  b1 = u.u1;
  b2 = u.u2;
  b3 = u.u3;
  b4 = u.u4;
  b5 = u.u5;
  b6 = 1;
  b7 = bit_xor u.u0 u.u5;
})

abbrev pub heartbeat_raw : ℕ → ℕ → RawCanFrame
heartbeat_raw a sequence =
    managed_raw a MessageKind.heartbeat
      (record { b0 = sequence; b1 = 0; b2 = 1; b3 = 0; b4 = 0; b5 = 0; b6 = 0; b7 = 0 })

-- Address, claims sent and when the next is due, of a node that has sent no heartbeat yet.
abbrev pub Opens : ℕ → ℕ → ℕ → Uid → List (Option EntityLocation) → Node → Type 0
Opens a claims due u slots n =
    (n.pending_discovery_response ≡ none)
    × (n.address ≡ some a)
    × (n.claims_sent ≡ claims)
    × (n.claim_schedule_initialized ≡ true)
    × (n.next_claim_ms ≡ due)
    × (n.next_heartbeat_ms ≡ 0)
    × (n.uid ≡ u)
    × (n.owned_claim_index ≡ 0)
    × (n.owned_entities ≡ slots)

pub Opens-of_settled :
    (a claims due : ℕ) (u : Uid) (slots : List (Option EntityLocation)) (m n : Node)
    → settled m ≡ settled n
    → Opens a claims due u slots n
    → Opens a claims due u slots m
unfolding settled
Opens-of_settled a claims due u slots m n e opens =
    subst (λ (n : Node). Opens a claims due u slots n) (sym e) opens

-- It has nothing to send but its claims.
pub record Starts (a claims due sequence : ℕ) (u : Uid) (os : List EntityLocation) (k : ℕ)
    (n : Node) : Type 0 where
  pub opens : Opens a claims due u (packed os k) n
  pub numbered : n.sequence ≡ sequence
  pub fits : QueuesFit n
  pub idle : backlog n ≡ []

encode-claim :
    (a : ℕ) (u : Uid)
    → 0 < a
    → a < 0x1ff
    → encode (managed a MessageKind.address_claim (claim_raw a u).bytes) ≡ ok (claim_raw a u)
unfolding encode validate priority valid_identifier valid_bytes
encode-claim a u low lt = ground arith

pub send_claim-adds :
    (a : ℕ) (n : Node)
    → n.address ≡ some a
    → 0 < a
    → a < 0x1ff
    → send_claim n
      ≡ (add_to QueueName.management (claim_raw a n.uid) (record n {
        claims_sent = u8 (n.claims_sent + 1);
        next_claim_ms = u32 (n.next_claim_ms + claim_interval n.uid);
      })).0
unfolding send_claim send create enqueue enqueue_raw add_to
send_claim-adds a n own low lt = ground (arith, own, encode-claim a n.uid low lt)

pub transmit_now-heartbeat :
    {W : Type 0} (env : Env W) (a sequence : ℕ) (w : W)
    → 0 < a
    → a < 0x1ff
    → transmit_now env MessageKind.heartbeat a (heartbeat_raw a sequence).bytes w
      ≡ env.transmit (heartbeat_raw a sequence) w
unfolding transmit_now create encode validate priority valid_identifier valid_bytes
transmit_now-heartbeat env a sequence w low lt = ground arith

module _ {W : Type 0} (env : Env W) where
  tick_scheduled_claim :
      (a claims due sequence k now : ℕ) (u : Uid) (os : List EntityLocation) (s : Sys W)
      → Starts a claims due sequence u os k s.node
      → claims < 2
      → due ≤ now
      → tick_scheduled env now s ≡ (drain_one env (record s { node = send_claim s.node })).0
  unfolding tick_scheduled init_claim_schedule tick_assigned
  tick_scheduled_claim a claims due sequence k now u os s h few past =
      let (quiet, own, sent, scheduled, next, beat, uid, index, owned) = h.opens in
      ground (arith, own, sent, scheduled, next, few, past)

  tick_scheduled_heartbeat :
      (a due sequence k now : ℕ) (u : Uid) (os : List EntityLocation) (s : Sys W)
      → Starts a 2 due sequence u os k s.node
      → tick_scheduled env now s ≡ send_heartbeat env a now s
  unfolding tick_scheduled init_claim_schedule tick_assigned
  tick_scheduled_heartbeat a due sequence k now u os s h =
      let (quiet, own, sent, scheduled, next, beat, uid, index, owned) = h.opens in
      ground (arith, own, sent, scheduled, beat)

  pub tick_claim_step :
      (a claims due sequence k now : ℕ) (u : Uid) (os : List EntityLocation) (s : Sys W)
      → Starts a claims due sequence u os k (expire_offline env now s).node
      → claims < 2
      → due ≤ now
      → let t = expire_offline env now s in
        tick env now s ≡ (drain_one env (record t { node = send_claim t.node })).0
  unfolding tick
  tick_claim_step a claims due sequence k now u os s h few past =
      let t = expire_offline env now s in
      simp (h.opens.0, tick) (tick_scheduled_claim a claims due sequence k now u os t h few past)

  pub tick_heartbeat_step :
      (a due sequence k now : ℕ) (u : Uid) (os : List EntityLocation) (s : Sys W)
      → Starts a 2 due sequence u os k (expire_offline env now s).node
      → tick env now s ≡ send_heartbeat env a now (expire_offline env now s)
  unfolding tick
  tick_heartbeat_step a due sequence k now u os s h =
      let t = expire_offline env now s in
      simp (h.opens.0, tick) (tick_scheduled_heartbeat a due sequence k now u os t h)

  pub Starts-expire_offline :
      (a claims due sequence k now : ℕ) (u : Uid) (os : List EntityLocation) (s : Sys W)
      → Starts a claims due sequence u os k s.node
      → Starts a claims due sequence u os k (expire_offline env now s).node
  unfolding expire_offline
  Starts-expire_offline a claims due sequence k now u os s h =
      expire_from-keeps env (Starts a claims due sequence u os k)
        (λ n seen entities g. record {
          opens = g.opens;
          numbered = g.numbered;
          fits = g.fits;
          idle = g.idle;
        })
        510 now 1 s h
