-- ===== src/Runtime/Handle/Commission.antt =====
-- A primary gives a joining node its address.
use esphome_hacan.Base.{
  ℕ, zero, suc, ◌<◌, ◌≡◌, refl, ap, sym, subst, ◌∙◌, true, false, some, ok, arith, Bytes8, u8,
  ◌>>>◌, ◌<<<◌, bit_or, bit_and, or_fields_low,
}
use esphome_hacan.Types.{Priority, MessageKind, kind_code}
use esphome_hacan.CanIdentifier.{create, to_raw}
use esphome_hacan.WirePayload.{valid_bytes, valid_identifier, validate, priority, u16_le}
use esphome_hacan.FrameCodec.{RawCanFrame, ProtocolFrame, decode, encode}
use esphome_hacan.FrameCodec.RoundTrip.{decode-encode}
use esphome_hacan.Runtime.Env.{Env}
use esphome_hacan.Runtime.Uid.{uid_at_0, uid_at_1, same_uid}
use esphome_hacan.Runtime.Uid.Order.{same_uid_iff}
use esphome_hacan.Runtime.Handle.Conflict.{note_source-kept}
use esphome_hacan.Runtime.Node.{Node, Sys}
use esphome_hacan.Runtime.Directory.{next_free_address}
use esphome_hacan.Runtime.Directory.Addresses.{IsLeastFree, next_free_address-IsLeastFree}
use esphome_hacan.Runtime.Send.{transmit_now, assign}
use esphome_hacan.Runtime.Handle.{
  assigned_address, note_source, take_address, handle_address_assign, handle, receive,
}

-- The bytes that `assign` sends.
abbrev pub assign_bytes : Bytes8 → ℕ → Bytes8
assign_bytes discovery candidate = record {
  b0 = discovery.b1;
  b1 = discovery.b2;
  b2 = discovery.b3;
  b3 = discovery.b4;
  b4 = discovery.b5;
  b5 = discovery.b6;
  b6 = u8 candidate;
  b7 = u8 (bit_or (candidate >>> 8) 0x02);
}

-- The high byte: bit 8 of the address, and the bit that marks a new assignment.
high_byte :
    (h : ℕ)
    → h < 2
    → (bit_and (u8 (bit_or h 0x02)) 1 ≡ h)
      × (bit_and (u8 (bit_or h 0x02)) 0xfc ≡ 0)
      × (bit_and (u8 (bit_or h 0x02)) 0x02 ≡ 2)
high_byte zero lt = (refl, refl, refl)
high_byte (suc zero) lt = (refl, refl, refl)
high_byte (suc (suc h)) lt = absurd (omega arith)

two_bytes : (c : ℕ) → bit_or (u8 c) ((c >>> 8) <<< 8) ≡ c
two_bytes c = omega (arith, or_fields_low 8 (u8 c) (c >>> 8) (omega arith))

assigned_address-assign_bytes :
    (d : Bytes8) (c : ℕ) → c < 0x1ff → assigned_address (assign_bytes d c) ≡ c
unfolding assigned_address
assigned_address-assign_bytes d c lt =
    ground (arith, high_byte (c >>> 8) (omega arith), two_bytes c)

pub assign_bytes-accepted :
    (d : Bytes8) (c : ℕ)
    → 0 < c
    → c < 0x1ff
    → valid_bytes MessageKind.address_assign (assign_bytes d c) ≡ true
unfolding valid_bytes u16_le
assign_bytes-accepted d c low lt = ground (arith, high_byte (c >>> 8) (omega arith), two_bytes c)

-- The frame that `assign` sends from address `a`.
abbrev assign_frame : ℕ → Bytes8 → ProtocolFrame
assign_frame a bytes = record {
  identifier = record {
    priority = Priority.management;
    kind = kind_code MessageKind.address_assign;
    destination = 0x1ff;
    source = a;
    hop = 0;
  };
  payload = record { kind = MessageKind.address_assign; bytes = bytes };
}

abbrev pub assign_raw : ℕ → Bytes8 → RawCanFrame
assign_raw a bytes = record {
  can_id = to_raw (assign_frame a bytes).identifier;
  extended = true;
  dlc = 8;
  bytes = bytes;
}

encode-assign_frame :
    (a : ℕ) (bytes : Bytes8)
    → 0 < a
    → a < 0x1ff
    → valid_bytes MessageKind.address_assign bytes ≡ true
    → encode (assign_frame a bytes) ≡ ok (assign_raw a bytes)
unfolding encode validate priority valid_identifier
encode-assign_frame a bytes low lt accepted = ground arith

decode-assign_raw :
    (a : ℕ) (bytes : Bytes8)
    → 0 < a
    → a < 0x1ff
    → valid_bytes MessageKind.address_assign bytes ≡ true
    → decode (assign_raw a bytes) ≡ ok (assign_frame a bytes)
decode-assign_raw a bytes low lt accepted =
    decode-encode (assign_frame a bytes)
      (record {
        kind_fits = omega arith;
        destination_fits = omega arith;
        source_fits = omega arith;
        hop_fits = omega arith;
      })
      (encode-assign_frame a bytes low lt accepted)

pub transmit_now-assign :
    {W : Type 0} (env : Env W) (a : ℕ) (bytes : Bytes8) (w : W)
    → 0 < a
    → a < 0x1ff
    → valid_bytes MessageKind.address_assign bytes ≡ true
    → transmit_now env MessageKind.address_assign a bytes w ≡ env.transmit (assign_raw a bytes) w
unfolding transmit_now create
transmit_now-assign env a bytes w low lt accepted =
    ground (arith, encode-assign_frame a bytes low lt accepted)

-- A node with the UID of an assignment that stores the address takes it.
module _ {W : Type 0} (env : Env W) where
  handle_address_assign-takes :
      (bytes : Bytes8) (now : ℕ) (s : Sys W)
      → same_uid (uid_at_0 bytes) s.node.uid ≡ true
      → (env.save (assigned_address bytes) s.world).1 ≡ true
      → (handle_address_assign env bytes now s).node.address ≡ some (assigned_address bytes)
  unfolding handle_address_assign take_address
  handle_address_assign-takes bytes now s mine saved = ground arith

  handle-assign_frame :
      (a : ℕ) (bytes : Bytes8) (now : ℕ) (s : Sys W)
      → handle env (assign_frame a bytes) now s
        ≡ handle_address_assign env bytes now (record s { node = note_source a now s.node })
  unfolding handle
  handle-assign_frame a bytes now s = ground arith

  receive-assign_raw :
      (a : ℕ) (bytes : Bytes8) (now : ℕ) (s : Sys W)
      → 0 < a
      → a < 0x1ff
      → valid_bytes MessageKind.address_assign bytes ≡ true
      → uid_at_0 bytes ≡ s.node.uid
      → (env.save (assigned_address bytes) s.world).1 ≡ true
      → (receive env (assign_raw a bytes) now s).node.address ≡ some (assigned_address bytes)
  unfolding receive
  receive-assign_raw a bytes now s low lt accepted mine saved =
      let s' : Sys W = record s { node = note_source a now s.node } in
      let kept = note_source-kept a now s.node in
      ground (
        arith,
        decode-assign_raw a bytes low lt accepted,
        handle-assign_frame a bytes now s,
        handle_address_assign-takes bytes now s'
            ((same_uid_iff (uid_at_0 bytes) s'.node.uid).1 (mine ∙ sym kept.1)) saved,
      )

pub offered :
    (n : Node) (c : ℕ)
    → next_free_address n ≡ some c
    → (0 < c) × (c < 0x1ff) × (n.allocated c ≡ false)
offered n c e =
    let least : IsLeastFree n.allocated 1 0x1ff (some c) =
      subst (IsLeastFree n.allocated 1 0x1ff) e (next_free_address-IsLeastFree n) in
    (omega arith, omega arith, least.2)

module _ {W : Type 0} (env : Env W) where
  assign-transmits :
      (d : Bytes8) (s : Sys W) (a c : ℕ)
      → s.node.address ≡ some a
      → next_free_address s.node ≡ some c
      → 0 < a
      → a < 0x1ff
      → 0 < c
      → c < 0x1ff
      → (assign env d s).world ≡ (env.transmit (assign_raw a (assign_bytes d c)) s.world).0
  unfolding assign
  assign-transmits d s a c own free low lt clow clt = ground (
    arith,
    transmit_now-assign env a (assign_bytes d c) s.world low lt
        (assign_bytes-accepted d c clow clt),
  )

-- A primary at address `a` answers a discovery response while `c` is the next free address. It
-- transmits one raw frame, and a node with the UID of the response that receives it and can store
-- the address has address `c` from then on; `c` was not allocated before.
pub commissioned :
    {V W : Type 0} (primary : Env V) (joiner : Env W) (s : Sys V) (t : Sys W) (discovery : Bytes8)
    (a c now : ℕ)
    → s.node.address ≡ some a
    → 0 < a
    → a < 0x1ff
    → next_free_address s.node ≡ some c
    → uid_at_1 discovery ≡ t.node.uid
    → (joiner.save c t.world).1 ≡ true
    → (raw : RawCanFrame) × ((assign primary discovery s).world ≡ (primary.transmit raw s.world).0)
      × ((receive joiner raw now t).node.address ≡ some c)
      × (s.node.allocated c ≡ false)
commissioned primary joiner s t discovery a c now own low lt free mine saved =
    let bytes = assign_bytes discovery c in
    let (clow, clt, fresh_one) = offered s.node c free in
    let read : assigned_address bytes ≡ c = assigned_address-assign_bytes discovery c clt in
    (
      assign_raw a bytes,
      assign-transmits primary discovery s a c own free low lt clow clt,
      receive-assign_raw joiner a bytes now t low lt (assign_bytes-accepted discovery c clow clt)
            mine (simp read saved)
          ∙ ap some read,
      fresh_one,
    )
