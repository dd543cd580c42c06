-- ===== src/Runtime/Directory/Addresses.antt =====
-- The address that a primary offers.
use esphome_hacan.Base.{
  ℕ, zero, suc, ◌+◌, ◌≤◌, ◌<◌, ◌≡◌, true, false, Bool, some, none, Option, inl, inr, arith,
  Bool-cases,
}
use esphome_hacan.Runtime.Node.{Node}
use esphome_hacan.Runtime.Directory.{next_free_from, next_free_address}

-- The least address from `low` to below `high` that is not allocated, or that there is none.
abbrev pub IsLeastFree : (ℕ → Bool) → ℕ → ℕ → Option ℕ → Type 0
IsLeastFree allocated low high none = (j : ℕ) → low ≤ j → j < high → allocated j ≡ true
IsLeastFree allocated low high (some a) =
    (low ≤ a)
    × (a < high)
    × (allocated a ≡ false)
    × ((j : ℕ) → low ≤ j → j < a → allocated j ≡ true)

next_free_from-IsLeastFree :
    (left value : ℕ) (allocated : ℕ → Bool)
    → IsLeastFree allocated value (value + left) (next_free_from left value allocated)
unfolding next_free_from
next_free_from-IsLeastFree zero value allocated = λ j h k. absurd (omega arith)
next_free_from-IsLeastFree (suc left) value allocated = elim (Bool-cases (allocated value)) [
  | inl taken ↦ rw taken (
      later (next_free_from left (suc value) allocated) taken
        (next_free_from-IsLeastFree left (suc value) allocated))
  | inr free ↦ rw free (omega arith, omega arith, free, λ j h k. absurd (omega arith))
]
  where
    above :
        (j : ℕ)
        → allocated value ≡ true
        → value ≤ j
        → (suc value ≤ j → allocated j ≡ true)
        → allocated j ≡ true
    above j taken h rest = ground arith

    later :
        (r : Option ℕ)
        → allocated value ≡ true
        → IsLeastFree allocated (suc value) (suc value + left) r
        → IsLeastFree allocated value (value + suc left) r
    later none taken h = λ j p q. above j taken p (λ k. h j k (omega arith))
    later (some a) taken h =
        (omega arith, omega arith, h.2, λ j p q. above j taken p (λ k. h.3 j k q))

-- The address offered is the least from 1 to 0x1FE that is not allocated, so 1 if that is not; if
-- none is offered, all of them are.
pub next_free_address-IsLeastFree :
    (n : Node) → IsLeastFree n.allocated 1 0x1ff (next_free_address n)
unfolding next_free_address
next_free_address-IsLeastFree n = next_free_from-IsLeastFree 510 1 n.allocated
