-- ===== src/Runtime/Tick/Announced.antt =====
-- An assigned node speaks for its entities, one at each tick.
use esphome_hacan.Base.{
  ℕ, zero, suc, ◌+◌, ◌-◌, ◌<◌, ◌≡◌, refl, ap, ◌∙◌, inl, inr, true, Option, some, List, [], ◌∷◌,
  ◌++◌, arith, length, ok, packed, u8, ◌>>>◌,
}
use esphome_hacan.Types.{Priority, MessageKind, kind_code}
use esphome_hacan.CanIdentifier.{create, to_raw}
use esphome_hacan.WirePayload.{validate, priority, valid_identifier, valid_bytes}
use esphome_hacan.FrameCodec.{RawCanFrame, ProtocolFrame, encode}
use esphome_hacan.Runtime.Node.{Node, EntityLocation}
use esphome_hacan.Runtime.Queue.{add}
use esphome_hacan.Runtime.Queue.Fifo.{waiting, waiting-add, length-waiting, add-IsWellFormed}
use esphome_hacan.Runtime.Send.{send, next_sequence, send_entity_claim}
use esphome_hacan.Runtime.Transmit.{QueueName, add_to, enqueue, enqueue_raw}
use esphome_hacan.Runtime.Transmit.Backlog.{backlog, QueuesFit}
use esphome_hacan.Runtime.Tick.{entry_at, skip_from, skip_empty, claim_owned}

-- The frame with which the node at address `a` speaks for an entity.
abbrev entity_frame : ℕ → ℕ → EntityLocation → ProtocolFrame
entity_frame a sequence o = record {
  identifier = record {
    priority = Priority.management;
    kind = kind_code MessageKind.entity_claim;
    destination = 0x1ff;
    source = a;
    hop = 0;
  };
  payload = record {
    kind = MessageKind.entity_claim;
    bytes = record {
      b0 = sequence;
      b1 = o.endpoint;
      b2 = u8 o.entity;
      b3 = u8 (o.entity >>> 8);
      b4 = u8 (o.entity >>> 16);
      b5 = u8 (o.entity >>> 24);
      b6 = 0;
      b7 = 0;
    };
  };
}

abbrev pub entity_raw : ℕ → ℕ → EntityLocation → RawCanFrame
entity_raw a sequence o = record {
  can_id = to_raw (entity_frame a sequence o).identifier;
  extended = true;
  dlc = 8;
  bytes = (entity_frame a sequence o).payload.bytes;
}

-- An entity that can be owned: `register_owned_entity` takes no other.
abbrev pub IsOwnable : EntityLocation → Type 0
IsOwnable o = (0 < o.entity) × (o.entity < 0x1_0000_0000) × (0 < o.endpoint) × (o.endpoint < 0xff)

encode-entity_frame :
    (a sequence : ℕ) (o : EntityLocation)
    → 0 < a
    → a < 0x1ff
    → IsOwnable o
    → encode (entity_frame a sequence o) ≡ ok (entity_raw a sequence o)
unfolding encode validate priority valid_identifier valid_bytes
encode-entity_frame a sequence o low lt fits = ground (arith, fits)

-- The slots before the index are spoken for, and the next one is filled.
pub entry_at-packed :
    {A : Type 0} (done os : List A) (o : A) (k : ℕ)
    → entry_at (packed (done ++ o ∷ os) k) (length done) ≡ some o
entry_at-packed [] os o k = refl
entry_at-packed (d ∷ done) os o k = entry_at-packed done os o k

pub skip_empty_filled :
    {A : Type 0} (index : ℕ) (slots : List (Option A)) (a : A)
    → entry_at slots index ≡ some a
    → skip_empty index slots ≡ index
unfolding skip_empty
skip_empty_filled index slots a e = go (length slots - index)
  where
    go : (left : ℕ) → skip_from left index slots ≡ index
    go zero = unfold skip_from in refl
    go (suc left) = unfold skip_from in ground (arith, e)

-- After the claim of an entity, the raw frame is behind the management frames that wait.
pub claim_owned-adds :
    (a : ℕ) (o : EntityLocation) (n : Node)
    → n.address ≡ some a
    → 0 < a
    → a < 0x1ff
    → IsOwnable o
    → claim_owned o n
      ≡ (add_to QueueName.management (entity_raw a n.sequence o) (record n {
        owned_claim_index = u8 (n.owned_claim_index + 1);
        sequence = u8 (n.sequence + 1);
      })).0
unfolding claim_owned send_entity_claim next_sequence send create enqueue enqueue_raw
claim_owned-adds a o n own low lt fits =
    ground (arith, own, encode-entity_frame a n.sequence o low lt fits)

append_nil-left : {A : Type 0} (xs ys : List A) → xs ++ ys ≡ [] → (xs ≡ []) × (ys ≡ [])
append_nil-left [] ys e = (refl, e)
append_nil-left (x ∷ xs) ys e = cc

-- A management frame in a node without a backlog is the whole backlog.
pub backlog-add_to :
    (raw : RawCanFrame) (n : Node)
    → QueuesFit n
    → backlog n ≡ []
    → (backlog (add_to QueueName.management raw n).0 ≡ raw ∷ [])
      × QueuesFit (add_to QueueName.management raw n).0
unfolding add_to
backlog-add_to raw n (c, e, s, m, d) nothing =
    let (r3, w4) = append_nil-left _ (waiting n.diagnostic_queue) nothing in
    let (r2, w3) = append_nil-left _ (waiting n.management_queue) r3 in
    let (r1, w2) = append_nil-left _ (waiting n.state_queue) r2 in
    let (w0, w1) = append_nil-left (waiting n.control_queue) (waiting n.event_queue) r1 in
    let none_wait : n.management_queue.count ≡ 0 =
      ground (arith, length-waiting n.management_queue m, w3) in
    let alone : waiting (add raw n.management_queue).0 ≡ raw ∷ [] =
      elim (waiting-add raw n.management_queue m) [
        | inl (room, took, joined) ↦ joined ∙ ap (λ l. l ++ raw ∷ []) w3
        | inr (full, refused, kept) ↦ absurd (omega arith)
      ] in
    (simp (w0, w1, w2, w4, alone) refl, (c, e, s, add-IsWellFormed raw n.management_queue m, d))
