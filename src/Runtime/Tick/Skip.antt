-- ===== src/Runtime/Tick/Skip.antt =====
-- The loops of `tick` that skip the empty slots of an array.
use esphome_hacan.Base.{
  ℕ, zero, suc, ◌+◌, ◌-◌, ◌≤◌, ◌<◌, ◌≡◌, ◌⊎◌, inl, inr, Option, none, some, List, arith, length,
  Option-cases, Bool-cases, ◌==◌, ==_iff,
}
use esphome_hacan.Runtime.Tick.{entry_at, skip_from, skip_empty}

-- Where a loop from `index` over the slots stops: behind empty slots only, at a filled one or at
-- the end of the array.
pub record StopsAt {ℓ} {A : Type ℓ} (index : ℕ) (slots : List (Option A)) (stop : ℕ) : Type ℓ where
  pub from : index ≤ stop
  pub within : stop ≤ length slots
  pub skipped : (j : ℕ) → index ≤ j → j < stop → entry_at slots j ≡ none
  pub filled : (stop ≡ length slots) ⊎ ((a : A) × (entry_at slots stop ≡ some a))

module _ {ℓ} {A : Type ℓ} (slots : List (Option A)) where
  skip_from-StopsAt :
      (left index : ℕ)
      → index + left ≡ length slots
      → StopsAt index slots (skip_from left index slots)
  unfolding skip_from
  skip_from-StopsAt zero index e = record {
    from = omega arith;
    within = omega arith;
    skipped = λ j h k. absurd (omega arith);
    filled = inl (omega arith);
  }
  skip_from-StopsAt (suc left) index e = elim (Option-cases (entry_at slots index)) [
    | inr (a, here) ↦
        simp (here, skip_from)
          (record {
            from = omega arith;
            within = omega arith;
            skipped = λ j h k. absurd (omega arith);
            filled = inr (a, here);
          })
    | inl empty ↦
        let rest = skip_from-StopsAt left (suc index) (omega arith) in
        simp (empty, skip_from)
          (record {
            from = omega (arith, rest.from);
            within = rest.within;
            skipped = λ j h k. elim (Bool-cases (j == index)) [
              | inl here ↦ rw ((==_iff j index).0 here) empty
              | inr there ↦ rest.skipped j (ground arith) k
            ];
            filled = rest.filled;
          })
  ]

-- The loop ends, and it ends at the first filled slot from the index on, or at the end.
pub skip_empty-StopsAt {ℓ} :
    {A : Type ℓ} (index : ℕ) (slots : List (Option A))
    → index ≤ length slots
    → StopsAt index slots (skip_empty index slots)
unfolding skip_empty
skip_empty-StopsAt index slots h =
    skip_from-StopsAt slots (length slots - index) index (omega arith)
