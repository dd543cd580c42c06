-- ===== src/Runtime/Directory/Expiry.antt =====
-- Which nodes count as online after the expiry that starts each tick.
use esphome_hacan.Base.{
  ℕ, zero, suc, ◌+◌, ◌≤◌, ◌<◌, ◌≡◌, ◌≢◌, ◌==◌, refl, ◌∙◌, inl, inr, ◌&&◌, Bool, arith, Bool-cases,
  ltb,
}
use esphome_hacan.Runtime.Env.{Env}
use esphome_hacan.Runtime.Node.{Node, Sys}
use esphome_hacan.Runtime.Directory.{
  is_online, elapsed, offline_after_ms, expire_source, expire_from, expire_offline,
}

-- The node was heard of in the last 105 seconds.
abbrev pub heard_lately : ℕ → ℕ → Node → Bool
heard_lately now source n = n.seen source && ltb (elapsed now (n.last_seen source)) offline_after_ms

module _ {W : Type 0} (env : Env W) (now : ℕ) where
  pub expire_source-last_seen :
      (source : ℕ) (s : Sys W) → (expire_source env now source s).node.last_seen ≡ s.node.last_seen
  unfolding expire_source
  expire_source-last_seen source s = ground arith

  expire_source-seen :
      (source : ℕ) (s : Sys W)
      → (expire_source env now source s).node.seen source ≡ heard_lately now source s.node
  unfolding expire_source
  expire_source-seen source s = ground arith

  pub expire_source-others :
      (source j : ℕ) (s : Sys W)
      → j ≢ source
      → (expire_source env now source s).node.seen j ≡ s.node.seen j
  unfolding expire_source
  expire_source-others source j s ne = ground arith

  -- The rounds before and after the round of a node leave it alone.
  expire_from-later :
      (left source j : ℕ) (s : Sys W)
      → j < source
      → (expire_from env left now source s).node.seen j ≡ s.node.seen j
  unfolding expire_from
  expire_from-later zero source j s lt = refl
  expire_from-later (suc left) source j s lt =
      expire_from-later left (suc source) j (expire_source env now source s) (omega arith)
      ∙ expire_source-others source j s (λ e. omega arith)

  expire_from-seen :
      (left source j : ℕ) (s : Sys W)
      → source ≤ j
      → j < source + left
      → (expire_from env left now source s).node.seen j ≡ heard_lately now j s.node
  unfolding expire_from
  expire_from-seen zero source j s low high = absurd (omega arith)
  expire_from-seen (suc left) source j s low high =
      let s' = expire_source env now source s in
      elim (Bool-cases (j == source)) [
        | inl here ↦
            ground (arith, expire_from-later left (suc source) j s', expire_source-seen source s)
        | inr there ↦ ground (
          arith,
          expire_from-seen left (suc source) j s',
          expire_source-last_seen source s,
          expire_source-others source j s,
        )
      ]

-- After the expiry, the node at an address from 1 to 0x1FE is online exactly if it was seen before
-- and its last frame is less than 105 seconds old on the 32-bit clock.
pub is_online-expire_offline :
    {W : Type 0} (env : Env W) (now address : ℕ) (s : Sys W)
    → 0 < address
    → address < 0x1ff
    → is_online address (expire_offline env now s).node ≡ heard_lately now address s.node
unfolding is_online expire_offline
is_online-expire_offline env now address s low high =
    ground (arith, expire_from-seen env now 510 1 address s (omega arith) (omega arith))
