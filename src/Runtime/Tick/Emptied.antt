-- ===== src/Runtime/Tick/Emptied.antt =====
-- The backlog of a quiet node: its ticks send it, one frame each.
use mathlib.Core.List.{append_assoc, append-nil}
use esphome_hacan.Base.{
  ℕ, zero, suc, ◌<◌, ◌≡◌, refl, ap, sym, ◌∙◌, inl, inr, true, Option, none, some, List, [], ◌∷◌,
  ◌++◌, arith, length, take, drop, All,
}
use esphome_hacan.FrameCodec.{RawCanFrame}
use esphome_hacan.Runtime.Env.{Env, entity_unavailable}
use esphome_hacan.Runtime.Node.{Sys, EntityLocation}
use esphome_hacan.Runtime.Directory.{expire_entities, expire_source, expire_from, expire_offline}
use esphome_hacan.Runtime.Transmit.{drain_one}
use esphome_hacan.Runtime.Transmit.Backlog.{backlog, QueuesFit, drain_one-backlog}
use esphome_hacan.Runtime.Tick.{tick}
use esphome_hacan.Runtime.Settled.{settled-drain_one}
use esphome_hacan.Runtime.Tick.Quiet.{
  IsQuiet, IsQuiet-of_settled, tick-quiet, expire_from-keeps, run_ticks,
}

take_nil : {A : Type 0} (n : ℕ) → take {A = A} n [] ≡ []
take_nil zero = refl
take_nil (suc n) = refl

drop_nil : {A : Type 0} (n : ℕ) → drop {A = A} n [] ≡ []
drop_nil zero = refl
drop_nil (suc n) = refl

-- The transmitter takes every frame, and a list that is read off the world records them; what
-- happens to an entity is not in that list.
pub record Records {W : Type 0} (env : Env W) (frames : W → List RawCanFrame) : Type 0 where
  pub accepts : (raw : RawCanFrame) (w : W) → (env.transmit raw w).1 ≡ true
  pub appends : (raw : RawCanFrame) (w : W) → frames (env.transmit raw w).0 ≡ frames w ++ raw ∷ []
  pub ignores : (entity : ℕ) (w : W) → frames (env.on_entity_unavailable entity w) ≡ frames w

module _ {W : Type 0} (env : Env W) (frames : W → List RawCanFrame)
    (records : Records env frames) where
  entity_unavailable-frames :
      (entity : ℕ) (w : W) → frames (entity_unavailable env entity w) ≡ frames w
  unfolding entity_unavailable
  entity_unavailable-frames entity w = ground (arith, records.ignores entity w)

  expire_entities-frames :
      (source : ℕ) (slots : List (Option EntityLocation)) (w : W)
      → frames (expire_entities env source slots w).1 ≡ frames w
  unfolding expire_entities
  expire_entities-frames source [] w = refl
  expire_entities-frames source (none ∷ slots) w = expire_entities-frames source slots w
  expire_entities-frames source (some entry ∷ slots) w = ground (
    arith,
    entity_unavailable-frames entry.entity w,
    expire_entities-frames source slots w,
    expire_entities-frames source slots (entity_unavailable env entry.entity w),
  )

  pub expire_from-frames :
      (left now source : ℕ) (s : Sys W)
      → frames (expire_from env left now source s).world ≡ frames s.world
  unfolding expire_from expire_source
  expire_from-frames zero now source s = refl
  expire_from-frames (suc left) now source s =
      expire_from-frames left now (suc source) (expire_source env now source s)
      ∙ ground (arith, expire_entities-frames source s.node.entities s.world)

  -- A quiet node with well-formed queues, this backlog and these frames sent.
  abbrev Waits : ℕ → List RawCanFrame → List RawCanFrame → Sys W → Type 0
  Waits until left sent s =
      IsQuiet until s.node × QueuesFit s.node × (backlog s.node ≡ left) × (frames s.world ≡ sent)

  expire_offline-Waits :
      (until now : ℕ) (left sent : List RawCanFrame) (s : Sys W)
      → Waits until left sent s
      → Waits until left sent (expire_offline env now s)
  unfolding expire_offline
  expire_offline-Waits until now left sent s (quiet, fit, waiting, before) =
      let kept =
        expire_from-keeps env (λ n. IsQuiet until n × QueuesFit n × (backlog n ≡ left))
          (λ n seen entities p. p) 510 now 1 s (quiet, fit, waiting) in
      (kept.0, kept.1, kept.2, expire_from-frames 510 now 1 s ∙ before)

  -- The state after a tick, by what the backlog was: it is the same, or one frame further.
  tick-Waits_empty :
      (until now : ℕ) (sent : List RawCanFrame) (s : Sys W)
      → Waits until [] sent s
      → now < until
      → Waits until [] sent (tick env now s)
  tick-Waits_empty until now sent s waits early =
      let t = expire_offline env now s in
      let held : Waits until [] sent t = expire_offline-Waits until now [] sent s waits in
      elim (drain_one-backlog env t held.1 (λ raw. records.accepts raw t.world)) [
        | inl (empty, idle) ↦
            simp (tick-quiet env until now s held.0 early ∙ ap (λ r. r.0) idle) held
        | inr served ↦ absurd (ground (arith, served.taken, held.2))
      ]

  tick-Waits :
      (until now : ℕ) (raw : RawCanFrame) (left sent : List RawCanFrame) (s : Sys W)
      → Waits until (raw ∷ left) sent s
      → now < until
      → Waits until left (sent ++ raw ∷ []) (tick env now s)
  tick-Waits until now raw left sent s waits early =
      let t = expire_offline env now s in
      let held : Waits until (raw ∷ left) sent t =
        expire_offline-Waits until now (raw ∷ left) sent s waits in
      elim (drain_one-backlog env t held.1 (λ raw. records.accepts raw t.world)) [
        | inl (empty, idle) ↦ absurd (ground (arith, empty, held.2))
        | inr served ↦
            let same : raw ∷ left ≡ served.frame ∷ backlog (drain_one env t).0.node =
              sym held.2 ∙ served.taken in
            let first : served.frame ≡ raw = cc in
            let others : backlog (drain_one env t).0.node ≡ left = cc in
            simp (tick-quiet env until now s held.0 early) (
              IsQuiet-of_settled until _ t.node (settled-drain_one env t) held.0,
              served.fits,
              others,
              ap (λ r. frames r.0.world) served.sent
                  ∙ records.appends served.frame t.world
                  ∙ ap (λ l. l ++ served.frame ∷ []) held.3
                  ∙ ap (λ f. sent ++ f ∷ []) first,
            )
      ]

  run_ticks-Waits :
      (times : List ℕ) (until : ℕ) (left sent : List RawCanFrame) (s : Sys W)
      → Waits until left sent s
      → All (λ now. now < until) times
      → Waits until
          (drop (length times) left)
          (sent ++ take (length times) left)
          (run_ticks env times s)
  run_ticks-Waits [] until left sent s (quiet, fit, waiting, before) early =
      (quiet, fit, waiting, before ∙ sym (append-nil sent))
  run_ticks-Waits (now ∷ times) until [] sent s waits (soon, early) =
      let rest =
        run_ticks-Waits times until [] sent (tick env now s)
          (tick-Waits_empty until now sent s waits soon) early in
      (
        rest.0,
        rest.1,
        rest.2 ∙ drop_nil (length times),
        rest.3 ∙ ap (λ l. sent ++ l) (take_nil (length times)),
      )
  run_ticks-Waits (now ∷ times) until (raw ∷ left) sent s waits (soon, early) =
      let rest =
        run_ticks-Waits times until left (sent ++ raw ∷ []) (tick env now s)
          (tick-Waits until now raw left sent s waits soon) early in
      (rest.0, rest.1, rest.2, rest.3 ∙ append_assoc sent (raw ∷ []) (take (length times) left))

  -- The transmitter takes and records every frame. A node with well-formed queues has sent its
  -- claims, spoken for all its entities and resolved all it observes, and has no discovery response
  -- to give. Its ticks, at any times before its next heartbeat, each send one frame of its backlog,
  -- the first one first, until none is left.
  pub run_ticks-backlog :
      (times : List ℕ) (until : ℕ) (s : Sys W)
      → IsQuiet until s.node
      → QueuesFit s.node
      → All (λ now. now < until) times
      → (backlog (run_ticks env times s).node ≡ drop (length times) (backlog s.node))
        × (frames (run_ticks env times s).world
            ≡ frames s.world ++ take (length times) (backlog s.node))
  run_ticks-backlog times until s quiet fit early =
      let done =
        run_ticks-Waits times until (backlog s.node) (frames s.world) s (quiet, fit, refl, refl)
          early in
      (done.2, done.3)
