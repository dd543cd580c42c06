-- ===== src/Runtime/Send.antt =====
-- The frames that the runtime builds.
use esphome_hacan.Base.{
  ℕ, ◌+◌, Bool, true, false, none, some, [], ◌∷◌, if◌then◌else◌, Bytes8, ok, err, get_or, u8, u32,
  ◌>>>◌, bit_or, bit_xor, leb,
}
use esphome_hacan.Types.{Priority, MessageKind, kind_code, Status, status_code}
use esphome_hacan.CanIdentifier.{create}
use esphome_hacan.FrameCodec.{ProtocolFrame, encode}
use esphome_hacan.Runtime.Env.{Env}
use esphome_hacan.Runtime.Uid.{Uid, discovery_response_delay, claim_interval}
use esphome_hacan.Runtime.Node.{Node, Sys, store}
use esphome_hacan.Runtime.Directory.{next_free_address}
use esphome_hacan.Runtime.Transmit.{enqueue}

-- `if (payload && id) enqueue(ProtocolFrame{*id, *payload});` with the result ignored.
unfoldable pub send : Priority → MessageKind → ℕ → ℕ → Bytes8 → Node → Node
send priority kind destination source bytes n =
    elim (create priority (kind_code kind) destination source 0) [
      | none ↦ n
      | some id ↦
          (enqueue (record { identifier = id; payload = record { kind = kind; bytes = bytes } })
            n).0
    ]

-- `sequence_++`
unfoldable pub next_sequence : Node → Node
next_sequence n = record n { sequence = u8 (n.sequence + 1) }

unfoldable pub send_discovery_response : ℕ → ℕ → Node → Node
send_discovery_response transaction requester n =
    let u = n.uid in
    let source : ℕ = elim n.address [ none ↦ 0 | some address ↦ address ] in
    send Priority.management MessageKind.discovery_response requester source
      (record {
        b0 = transaction;
        b1 = u.u0;
        b2 = u.u1;
        b3 = u.u2;
        b4 = u.u3;
        b5 = u.u4;
        b6 = u.u5;
        b7 = 0;
      })
      n

-- The due time is a sum in 32 bits.
unfoldable pub schedule_discovery_response : Bytes8 → ℕ → ℕ → Node → Node
schedule_discovery_response request requester now n = record n {
  pending_discovery_response = some (record {
    transaction = request.b0;
    requester = requester;
    due_ms = u32 (now + discovery_response_delay n.uid request);
  });
}

-- `kRetry`, and 30000 past its end.
abbrev pub retry_delay : ℕ → ℕ
retry_delay attempt = get_or (2000 ∷ 4000 ∷ 8000 ∷ 16000 ∷ []) attempt 30000

abbrev pub retry_count : ℕ
retry_count = 4

unfoldable pub send_discovery_request : ℕ → Node → Node
send_discovery_request now n =
    let u = n.uid in
    let n1 = next_sequence n in
    let bytes : Bytes8 = record {
      b0 = n.sequence;
      b1 = 0x02;
      b2 = 0xe8;
      b3 = 0x03;
      b4 = bit_xor u.u0 n1.sequence;
      b5 = u.u1;
      b6 = u.u2;
      b7 = u.u3;
    } in
    let n2 = send Priority.management MessageKind.discovery_request 0x1ff 0 bytes n1 in
    let n3 = schedule_discovery_response bytes 0 now n2 in
    let attempt = n3.discovery_attempt in
    record n3 {
      discovery_attempt = if leb retry_count attempt then attempt else u8 (attempt + 1);
      next_discovery_ms = u32 (now + retry_delay attempt);
    }

unfoldable pub send_claim : Node → Node
send_claim n = elim n.address [
  | none ↦ n
  | some address ↦
      let u = n.uid in
      let n' =
        send Priority.management MessageKind.address_claim 0x1ff address
          (record {
            b0 = u.u0;
            b1 = u.u1;
            b2 = u.u2;
            b3 = u.u3;
            b4 = u.u4;
            b5 = u.u5;
            b6 = 1;
            b7 = bit_xor u.u0 u.u5;
          })
          n in
      record n' {
        claims_sent = u8 (n'.claims_sent + 1);
        next_claim_ms = u32 (n'.next_claim_ms + claim_interval n'.uid);
      }
]

unfoldable pub send_entity_claim : ℕ → ℕ → Node → Node
send_entity_claim entity endpoint n = elim n.address [
  | none ↦ n
  | some address ↦
      send Priority.management MessageKind.entity_claim 0x1ff address
        (record {
          b0 = n.sequence;
          b1 = endpoint;
          b2 = u8 entity;
          b3 = u8 (entity >>> 8);
          b4 = u8 (entity >>> 16);
          b5 = u8 (entity >>> 24);
          b6 = 0;
          b7 = 0;
        })
        (next_sequence n)
]

unfoldable pub send_entity_resolve : ℕ → Node → Node
send_entity_resolve entity n = elim n.address [
  | none ↦ n
  | some address ↦
      send Priority.management MessageKind.entity_resolve 0x1ff address
        (record {
          b0 = n.sequence;
          b1 = 0;
          b2 = u8 entity;
          b3 = u8 (entity >>> 8);
          b4 = u8 (entity >>> 16);
          b5 = u8 (entity >>> 24);
          b6 = 0xe8;
          b7 = 0x03;
        })
        (next_sequence n)
]

unfoldable pub send_address_conflict : Uid → Node → Node
send_address_conflict winner n = elim n.address [
  | none ↦ n
  | some address ↦
      send Priority.control MessageKind.address_conflict address address
        (record {
          b0 = winner.u0;
          b1 = winner.u1;
          b2 = winner.u2;
          b3 = winner.u3;
          b4 = winner.u4;
          b5 = winner.u5;
          b6 = 1;
          b7 = n.sequence;
        })
        (next_sequence n)
]

-- The acknowledgement of a command or event frame.
unfoldable pub acknowledge : ProtocolFrame → Status → Node → Node
acknowledge frame status n = elim n.address [
  | none ↦ n
  | some address ↦
      let bytes = frame.payload.bytes in
      send Priority.control MessageKind.ack frame.identifier.source address
        (record {
          b0 = bytes.b0;
          b1 = bytes.b1;
          b2 = frame.identifier.kind;
          b3 = status_code status;
          b4 = 0;
          b5 = 0;
          b6 = 0;
          b7 = 0;
        })
        n
]

module _ {W : Type 0} (env : Env W) where
  -- `if (const auto* raw = …) transmitter_.transmit(*raw)` past the queues; the flag is false too if
  -- the frame is not encoded.
  unfoldable pub transmit_now : MessageKind → ℕ → Bytes8 → W → W × Bool
  transmit_now kind address bytes w =
      elim (create Priority.management (kind_code kind) 0x1ff address 0) [
        | none ↦ (w, false)
        | some id ↦
            elim (encode
              (record { identifier = id; payload = record { kind = kind; bytes = bytes } })) [
                | err e ↦ (w, false)
                | ok raw ↦ env.transmit raw w
              ]
      ]

  -- Only called with an address.
  unfoldable pub send_heartbeat : ℕ → ℕ → Sys W → Sys W
  send_heartbeat address now s =
      let n = s.node in
      let (w, sent) =
        transmit_now MessageKind.heartbeat address
          (record { b0 = n.sequence; b1 = 0; b2 = 1; b3 = 0; b4 = 0; b5 = 0; b6 = 0; b7 = 0 })
          s.world in
      record {
        node = record (next_sequence n) { next_heartbeat_ms = u32 (now + 30000) };
        world = w;
      }

  unfoldable pub assign : Bytes8 → Sys W → Sys W
  assign discovery s = elim (next_free_address s.node) [
    | none ↦ s
    | some candidate ↦ elim s.node.address [
      | none ↦ s
      | some address ↦
          let n = s.node in
          let (w, sent) =
            transmit_now MessageKind.address_assign address
              (record {
                b0 = discovery.b1;
                b1 = discovery.b2;
                b2 = discovery.b3;
                b3 = discovery.b4;
                b4 = discovery.b5;
                b5 = discovery.b6;
                b6 = u8 candidate;
                b7 = u8 (bit_or (candidate >>> 8) 0x02);
              })
              s.world in
          record {
            node = if sent then record n { allocated = store candidate true n.allocated } else n;
            world = w;
          }
    ]
  ]
