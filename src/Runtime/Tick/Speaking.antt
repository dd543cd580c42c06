-- ===== src/Runtime/Tick/Speaking.antt =====
-- Tick by tick, an assigned node speaks for its entities.
use mathlib.Core.List.{append_assoc, append-nil}
use esphome_hacan.Base.{
  ℕ, ◌+◌, Option, ◌≤◌, ◌<◌, ◌≡◌, ap, sym, subst, ◌∙◌, inl, inr, true, none, some, List, [], ◌∷◌,
  ◌++◌, arith, length, length-append, All, packed, u8,
}
use esphome_hacan.FrameCodec.{RawCanFrame}
use esphome_hacan.Runtime.Env.{Env}
use esphome_hacan.Runtime.Node.{Node, Sys, EntityLocation}
use esphome_hacan.Runtime.Settled.{settled}
use esphome_hacan.Runtime.Directory.{expire_offline}
use esphome_hacan.Runtime.Transmit.{QueueName, add_to, drain_one}
use esphome_hacan.Runtime.Transmit.Backlog.{backlog, QueuesFit, drain_one-backlog}
use esphome_hacan.Runtime.Tick.{tick}
use esphome_hacan.Runtime.Settled.{settled-drain_one}
use esphome_hacan.Runtime.Tick.Quiet.{run_ticks}
use esphome_hacan.Runtime.Tick.Emptied.{Records, expire_from-frames}
use esphome_hacan.Runtime.Tick.Announced.{IsOwnable, entity_raw, claim_owned-adds, backlog-add_to}
use esphome_hacan.Runtime.Tick.Spoken.{
  Speaks, entity_claims, drain_one-sequence, tick_step, Speaks-expire_offline,
}

-- What of this does not depend on the queues and the sequence number.
abbrev Stands : ℕ → ℕ → ℕ → List (Option EntityLocation) → Node → Type 0
Stands until a index slots n =
    (n.pending_discovery_response ≡ none)
    × (n.address ≡ some a)
    × (n.claims_sent ≡ 2)
    × (n.claim_schedule_initialized ≡ true)
    × (until ≤ n.next_heartbeat_ms)
    × (n.owned_claim_index ≡ index)
    × (n.owned_entities ≡ slots)

Stands-of_settled :
    (until a index : ℕ) (slots : List (Option EntityLocation)) (m n : Node)
    → settled m ≡ settled n
    → Stands until a index slots n
    → Stands until a index slots m
unfolding settled
Stands-of_settled until a index slots m n e stands =
    subst (λ (n : Node). Stands until a index slots n) (sym e) stands

module _ {W : Type 0} (env : Env W) (frames : W → List RawCanFrame)
    (records : Records env frames) where
  -- A single frame of the backlog is sent.
  pub drain_one-single :
      (raw : RawCanFrame) (s : Sys W)
      → backlog s.node ≡ raw ∷ []
      → QueuesFit s.node
      → let t = (drain_one env s).0 in
        (backlog t.node ≡ []) × QueuesFit t.node × (frames t.world ≡ frames s.world ++ raw ∷ [])
  drain_one-single raw s one fit =
      elim (drain_one-backlog env s fit (λ frame. records.accepts frame s.world)) [
        | inl (empty, idle) ↦ absurd (ground (arith, empty, one))
        | inr served ↦
            let same : raw ∷ [] ≡ served.frame ∷ backlog (drain_one env s).0.node =
              sym one ∙ served.taken in
            let first : served.frame ≡ raw = cc in
            let nothing : backlog (drain_one env s).0.node ≡ [] = cc in
            (
              nothing,
              served.fits,
              ap (λ r. frames r.0.world) served.sent
                  ∙ records.appends served.frame s.world
                  ∙ ap (λ f. frames s.world ++ f ∷ []) first,
            )
      ]

  -- One tick: the claim of the next entity is sent, and nothing else waits.
  tick-Speaks :
      (until a sequence k now : ℕ) (done os : List EntityLocation) (o : EntityLocation) (s : Sys W)
      → 0 < a
      → a < 0x1ff
      → IsOwnable o
      → length done < 255
      → now < until
      → Speaks until a sequence done (o ∷ os) k s.node
      → Speaks until a (u8 (sequence + 1)) (done ++ o ∷ []) os k (tick env now s).node
        × (frames (tick env now s).world ≡ frames s.world ++ entity_raw a sequence o ∷ [])
  unfolding add_to expire_offline
  tick-Speaks until a sequence k now done os o s low lt fits few soon h0 =
      let t = expire_offline env now s in
      let h : Speaks until a sequence done (o ∷ os) k t.node =
        Speaks-expire_offline env until a sequence k now done (o ∷ os) s h0 in
      let raw = entity_raw a t.node.sequence o in
      let moved : Node = record (t.node) {
        owned_claim_index = u8 (t.node.owned_claim_index + 1);
        sequence = u8 (t.node.sequence + 1);
      } in
      let (one, fit) = backlog-add_to raw moved h.fits h.idle in
      let put = claim_owned-adds a o t.node h.own low lt fits in
      let u : Sys W = record t { node = (add_to QueueName.management raw moved).0 } in
      let step : tick env now s ≡ (drain_one env u).0 =
        tick_step env until a sequence k now done os o s h soon
        ∙ ap (λ n. (drain_one env (record t { node = n })).0) put in
      let (idle, fine, sent) = drain_one-single raw u one fit in
      let stands : Stands until a (length (done ++ o ∷ [])) (packed ((done ++ o ∷ []) ++ os) k)
          u.node =
        (
          h.quiet,
          h.own,
          h.claims,
          h.scheduled,
          h.early,
          omega (arith, h.spoken, length-append done (o ∷ [])),
          h.owned ∙ ap (λ l. packed l k) (sym (append_assoc done (o ∷ []) os)),
        ) in
      let after =
        Stands-of_settled until a _ _ (drain_one env u).0.node u.node (settled-drain_one env u)
          stands in
      let number : (drain_one env u).0.node.sequence ≡ u8 (sequence + 1) =
        drain_one-sequence env u ∙ ap (λ i. u8 (i + 1)) h.numbered in
      let all : Speaks until a (u8 (sequence + 1)) (done ++ o ∷ []) os k (drain_one env u).0.node =
        record {
          quiet = after.0;
          own = after.1;
          claims = after.2;
          scheduled = after.3;
          early = after.4;
          spoken = after.5;
          numbered = number;
          owned = after.6;
          fits = fine;
          idle = idle;
        } in
      (
        simp step all,
        simp step (
            sent
            ∙ ap (λ l. l ++ raw ∷ []) (expire_from-frames env frames records 510 now 1 s)
            ∙ ap (λ i. frames s.world ++ entity_raw a i o ∷ []) h.numbered),
      )

  -- The transmitter takes and records every frame. A node at an address from 1 to 0x1FE with
  -- well-formed and empty queues has sent its claims, has no discovery response to give, and
  -- owns entities that it has not spoken for. In as many ticks as these are, at any times before
  -- its next heartbeat, it sends one claim for each of them, in their order, and nothing else.
  pub run_ticks-Speaks :
      (times : List ℕ) (until a sequence k : ℕ) (done os : List EntityLocation) (s : Sys W)
      → 0 < a
      → a < 0x1ff
      → All IsOwnable os
      → length done + length os < 256
      → All (λ now. now < until) times
      → length times ≡ length os
      → Speaks until a sequence done os k s.node
      → frames (run_ticks env times s).world ≡ frames s.world ++ entity_claims a sequence os
  run_ticks-Speaks [] until a sequence k done [] s low lt ownable few early same h =
      sym (append-nil (frames s.world))
  run_ticks-Speaks [] until a sequence k done (o ∷ os) s low lt ownable few early same h =
      absurd (omega arith)
  run_ticks-Speaks (now ∷ times) until a sequence k done [] s low lt ownable few early same h =
      absurd (omega arith)
  run_ticks-Speaks (now ∷ times) until a sequence k done (o ∷ os) s low lt ownable few early same
        h =
      let (next, sent) =
        tick-Speaks until a sequence k now done os o s low lt ownable.0 (omega arith) early.0 h in
      run_ticks-Speaks times until a (u8 (sequence + 1)) k (done ++ o ∷ []) os (tick env now s) low
        lt ownable.1 (omega (arith, few, length-append done (o ∷ []))) early.1 (omega arith) next
      ∙ ap (λ l. l ++ entity_claims a (u8 (sequence + 1)) os) sent
      ∙ append_assoc (frames s.world) (entity_raw a sequence o ∷ [])
          (entity_claims a (u8 (sequence + 1)) os)
