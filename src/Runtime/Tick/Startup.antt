-- ===== src/Runtime/Tick/Startup.antt =====
-- The first ticks of a node that has an address: what it sends, frame by frame.
use mathlib.Core.List.{append_assoc}
use esphome_hacan.Base.{
  ℕ, suc, ◌+◌, ◌^◌, ◌≤◌, ◌<◌, ◌≡◌, ap, ◌∙◌, List, [], ◌∷◌, ◌++◌, arith, length, All, packed, u8,
  u32,
}
use esphome_hacan.FrameCodec.{RawCanFrame}
use esphome_hacan.Runtime.Env.{Env}
use esphome_hacan.Runtime.Uid.{Uid, claim_interval}
use esphome_hacan.Runtime.Node.{Node, Sys, EntityLocation}
use esphome_hacan.Runtime.Send.{send_heartbeat, next_sequence}
use esphome_hacan.Runtime.Directory.{expire_offline}
use esphome_hacan.Runtime.Transmit.{QueueName, add_to, drain_one}
use esphome_hacan.Runtime.Tick.{tick}
use esphome_hacan.Runtime.Settled.{settled-drain_one}
use esphome_hacan.Runtime.Tick.Quiet.{run_ticks}
use esphome_hacan.Runtime.Tick.Emptied.{Records, expire_from-frames}
use esphome_hacan.Runtime.Tick.Announced.{IsOwnable, backlog-add_to}
use esphome_hacan.Runtime.Tick.Spoken.{Speaks, entity_claims, drain_one-sequence}
use esphome_hacan.Runtime.Tick.Speaking.{drain_one-single, run_ticks-Speaks}
use esphome_hacan.Runtime.Tick.Started.{
  claim_raw, heartbeat_raw, Opens, Opens-of_settled, Starts, send_claim-adds,
  transmit_now-heartbeat, tick_claim_step, tick_heartbeat_step, Starts-expire_offline,
}

module _ {W : Type 0} (env : Env W) (frames : W → List RawCanFrame)
    (records : Records env frames) where
  -- A tick when a claim is due sends it.
  tick-Starts :
      (a claims due sequence k now : ℕ) (u : Uid) (os : List EntityLocation) (s : Sys W)
      → 0 < a
      → a < 0x1ff
      → claims < 2
      → due ≤ now
      → Starts a claims due sequence u os k s.node
      → Starts a (suc claims) (u32 (due + claim_interval u)) sequence u os k (tick env now s).node
        × (frames (tick env now s).world ≡ frames s.world ++ claim_raw a u ∷ [])
  unfolding add_to expire_offline
  tick-Starts a claims due sequence k now u os s low lt few past h0 =
      let t = expire_offline env now s in
      let h : Starts a claims due sequence u os k t.node =
        Starts-expire_offline env a claims due sequence k now u os s h0 in
      let (quiet, own, sent_claims, scheduled, next, beat, uid, index, owned) = h.opens in
      let raw = claim_raw a t.node.uid in
      let moved : Node = record (t.node) {
        claims_sent = u8 (t.node.claims_sent + 1);
        next_claim_ms = u32 (t.node.next_claim_ms + claim_interval t.node.uid);
      } in
      let (one, fit) = backlog-add_to raw moved h.fits h.idle in
      let v : Sys W = record t { node = (add_to QueueName.management raw moved).0 } in
      let step : tick env now s ≡ (drain_one env v).0 =
        tick_claim_step env a claims due sequence k now u os s h few past
        ∙ ap (λ n. (drain_one env (record t { node = n })).0)
            (send_claim-adds a t.node own low lt) in
      let (idle, fine, sent) = drain_one-single env frames records raw v one fit in
      let opens : Opens a (suc claims) (u32 (due + claim_interval u)) u (packed os k) v.node = (
        quiet,
        own,
        omega (arith, sent_claims),
        scheduled,
        ap (λ d. u32 (d + claim_interval t.node.uid)) next
            ∙ ap (λ w. u32 (due + claim_interval w)) uid,
        beat,
        uid,
        index,
        owned,
      ) in
      let all : Starts a (suc claims) (u32 (due + claim_interval u)) sequence u os k
          (drain_one env v).0.node =
        record {
          opens =
              Opens-of_settled a _ _ u _ (drain_one env v).0.node v.node (settled-drain_one env v)
                opens;
          numbered = drain_one-sequence env v ∙ h.numbered;
          fits = fine;
          idle = idle;
        } in
      (
        simp step all,
        simp step (
            sent
            ∙ ap (λ l. l ++ raw ∷ []) (expire_from-frames env frames records 510 now 1 s)
            ∙ ap (λ w. frames s.world ++ claim_raw a w ∷ []) uid),
      )

  -- The tick after both claims sends the heartbeat.
  tick-Speaks_first :
      (a due sequence k now : ℕ) (u : Uid) (os : List EntityLocation) (s : Sys W)
      → 0 < a
      → a < 0x1ff
      → now + 30000 < 2 ^ 32
      → Starts a 2 due sequence u os k s.node
      → Speaks (now + 30000) a (u8 (sequence + 1)) [] os k (tick env now s).node
        × (frames (tick env now s).world ≡ frames s.world ++ heartbeat_raw a sequence ∷ [])
  unfolding expire_offline send_heartbeat next_sequence
  tick-Speaks_first a due sequence k now u os s low lt clock h0 =
      let t = expire_offline env now s in
      let h : Starts a 2 due sequence u os k t.node =
        Starts-expire_offline env a 2 due sequence k now u os s h0 in
      let (quiet, own, claims, scheduled, next, beat, uid, index, owned) = h.opens in
      let step : tick env now s ≡ send_heartbeat env a now t =
        tick_heartbeat_step env a due sequence k now u os s h in
      let n = (send_heartbeat env a now t).node in
      let all : Speaks (now + 30000) a (u8 (sequence + 1)) [] os k n = record {
        quiet = quiet;
        own = own;
        claims = claims;
        scheduled = scheduled;
        early = omega arith;
        spoken = index;
        numbered = ap (λ i. u8 (i + 1)) h.numbered;
        owned = owned;
        fits = h.fits;
        idle = h.idle;
      } in
      let sent : frames (send_heartbeat env a now t).world
          ≡ frames t.world ++ heartbeat_raw a t.node.sequence ∷ [] =
        ap (λ (r : W × _). frames r.0) (transmit_now-heartbeat env a t.node.sequence t.world low lt)
        ∙ records.appends (heartbeat_raw a t.node.sequence) t.world in
      (
        simp step all,
        simp step (
            sent
            ∙ ap (λ l. l ++ heartbeat_raw a t.node.sequence ∷ [])
                (expire_from-frames env frames records 510 now 1 s)
            ∙ ap (λ i. frames s.world ++ heartbeat_raw a i ∷ []) h.numbered),
      )

  -- The transmitter takes and records every frame. A node at an address from 1 to 0x1FE with
  -- well-formed and empty queues has sent nothing yet, has a time for its first claim and no
  -- discovery response to give, and owns these entities. It ticks when the first claim is due, when
  -- the second is due, once more, and then as many times as it has entities, in the 30 seconds after
  -- that and before the 32-bit clock wraps. It sends two claims of its address, a heartbeat, and one
  -- claim for each of its entities in their order, and nothing else, so no announcement and no
  -- state.
  pub run_ticks-Starts :
      (first second third : ℕ) (times : List ℕ) (a due sequence k : ℕ) (u : Uid)
      (os : List EntityLocation) (s : Sys W)
      → 0 < a
      → a < 0x1ff
      → All IsOwnable os
      → length os < 256
      → due ≤ first
      → u32 (due + claim_interval u) ≤ second
      → third + 30000 < 2 ^ 32
      → All (λ now. now < third + 30000) times
      → length times ≡ length os
      → Starts a 0 due sequence u os k s.node
      → frames (run_ticks env (first ∷ second ∷ third ∷ times) s).world
        ≡ frames s.world
          ++ claim_raw a u
            ∷ claim_raw a u
            ∷ heartbeat_raw a sequence
            ∷ entity_claims a (u8 (sequence + 1)) os
  run_ticks-Starts first second third times a due sequence k u os s low lt ownable few due_first
        due_second clock early same h0 =
      let (h1, sent1) =
        tick-Starts a 0 due sequence k first u os s low lt (omega arith) due_first h0 in
      let s1 = tick env first s in
      let (h2, sent2) =
        tick-Starts a 1 _ sequence k second u os s1 low lt (omega arith) due_second h1 in
      let s2 = tick env second s1 in
      let (h3, sent3) = tick-Speaks_first a _ sequence k third u os s2 low lt clock h2 in
      let s3 = tick env third s2 in
      let rest = entity_claims a (u8 (sequence + 1)) os in
      let spoken =
        run_ticks-Speaks env frames records times (third + 30000) a (u8 (sequence + 1)) k [] os s3
          low lt ownable (omega arith) early same h3 in
      spoken
      ∙ ap (λ l. l ++ rest) sent3
      ∙ append_assoc (frames s2.world) (heartbeat_raw a sequence ∷ []) rest
      ∙ ap (λ l. l ++ heartbeat_raw a sequence ∷ rest) sent2
      ∙ append_assoc (frames s1.world) (claim_raw a u ∷ []) (heartbeat_raw a sequence ∷ rest)
      ∙ ap (λ l. l ++ claim_raw a u ∷ heartbeat_raw a sequence ∷ rest) sent1
      ∙ append_assoc (frames s.world) (claim_raw a u ∷ [])
          (claim_raw a u ∷ heartbeat_raw a sequence ∷ rest)
