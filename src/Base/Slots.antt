-- ===== src/Base/Slots.antt =====
-- `std::array<std::optional<T>, n>` and arrays of pointers: a list of slots, each empty or filled.
-- The combinators are the loops that the code writes over such arrays.
use Prim.Native.Nat.{ℕ, zero, suc}
use mathlib.Core.Path.{◌≡◌, refl}
use native.Mathlib.Omega.{arith}
use mathlib.Core.Bool.{Bool, true, false}
use mathlib.Core.List.{List, [], ◌∷◌, ◌++◌}
use mathlib.Core.Option.{Option, none, some}
use esphome_hacan.Base.Tests.{if◌then◌else◌, Option-cases}
use mathlib.Core.Logic.{inl, inr}

module _ {ℓ} {A : Type ℓ} where
  -- The first filled slot that passes the test.
  unfoldable pub find_slot : (A → Bool) → List (Option A) → Option A
  find_slot test [] = none
  find_slot test (none ∷ slots) = find_slot test slots
  find_slot test (some a ∷ slots) = if test a then some a else find_slot test slots

  -- The slots with the first empty one filled, if there is one.
  unfoldable pub fill_slot : A → List (Option A) → Option (List (Option A))
  fill_slot a [] = none
  fill_slot a (none ∷ slots) = some (some a ∷ slots)
  fill_slot a (some b ∷ slots) = elim (fill_slot a slots) [
    | none ↦ none
    | some filled ↦ some (some b ∷ filled)
  ]

  -- The slots with the first filled one that passes the test replaced.
  unfoldable pub replace_slot : (A → Bool) → (A → Option A) → List (Option A) → List (Option A)
  replace_slot test change [] = []
  replace_slot test change (none ∷ slots) = none ∷ replace_slot test change slots
  replace_slot test change (some a ∷ slots) =
      if test a then change a ∷ slots else some a ∷ replace_slot test change slots

  abbrev pub is_filled : Option A → Bool
  is_filled none = false
  is_filled (some a) = true

  abbrev pub count_filled : List (Option A) → ℕ
  count_filled [] = 0
  count_filled (none ∷ slots) = count_filled slots
  count_filled (some a ∷ slots) = suc (count_filled slots)

  -- Slots filled without a gap: these entries, then `k` empty slots.
  abbrev pub packed : List A → ℕ → List (Option A)
  packed [] zero = []
  packed [] (suc k) = none ∷ packed [] k
  packed (a ∷ entries) k = some a ∷ packed entries k

module _ {ℓ} {A : Type ℓ} (test : A → Bool) where
  -- An entry put into the first empty slot is found, where nothing passed the test before.
  pub find_slot-fill_slot :
      (a : A) (slots filled : List (Option A))
      → find_slot test slots ≡ none
      → fill_slot a slots ≡ some filled
      → test a ≡ true
      → find_slot test filled ≡ some a
  unfolding find_slot fill_slot
  find_slot-fill_slot a [] filled f e h = cc
  find_slot-fill_slot a (none ∷ slots) filled f e h = ground arith
  find_slot-fill_slot a (some b ∷ slots) filled f e h = elim (Option-cases (fill_slot a slots)) [
    | inl full ↦ ground arith
    | inr (rest, more) ↦ ground (arith, find_slot-fill_slot a slots rest)
  ]

  -- A replaced entry is found in its new form by a test that only entries of its kind pass.
  pub find_slot-replace_slot :
      (kind : A → Bool) (change : A → A) (a : A) (slots : List (Option A))
      → ((x : A) → test x ≡ true → kind x ≡ true)
      → find_slot kind slots ≡ some a
      → test (change a) ≡ true
      → find_slot test (replace_slot kind (λ x. some (change x)) slots) ≡ some (change a)
  unfolding find_slot replace_slot
  find_slot-replace_slot kind change a [] narrow f h = cc
  find_slot-replace_slot kind change a (none ∷ slots) narrow f h =
      find_slot-replace_slot kind change a slots narrow f h
  find_slot-replace_slot kind change a (some b ∷ slots) narrow f h =
      ground (arith, narrow b, find_slot-replace_slot kind change a slots narrow)

  pub find_slot-packed_nil : (k : ℕ) → find_slot test (packed [] k) ≡ none
  unfolding find_slot
  find_slot-packed_nil zero = refl
  find_slot-packed_nil (suc k) = find_slot-packed_nil k

module _ {ℓ} {A : Type ℓ} where
  pub fill_slot-packed :
      (a : A) (entries : List A) (k : ℕ)
      → fill_slot a (packed entries (suc k)) ≡ some (packed (entries ++ a ∷ []) k)
  unfolding fill_slot
  fill_slot-packed a [] k = refl
  fill_slot-packed a (b ∷ entries) k = ground (arith, fill_slot-packed a entries k)

-- Slots without a gap hold an entry of a kind that the test rejects, and a new entry that passes
-- follows: a change of the first entry of that kind does not reach the new one.
module _ {ℓ} {A : Type ℓ} (test kind : A → Bool) (change : A → A) (a : A) (k : ℕ) where
  find_slot-appended :
      (entries : List A)
      → test a ≡ true
      → find_slot test (packed entries (suc k)) ≡ none
      → find_slot test (packed (entries ++ a ∷ []) k) ≡ some a
  find_slot-appended entries h none_pass =
      find_slot-fill_slot test a (packed entries (suc k)) (packed (entries ++ a ∷ []) k) none_pass
        (fill_slot-packed a entries k) h

  pub find_slot-shadowed :
      (entries : List A) {old : A}
      → ((x : A) → test (change x) ≡ test x)
      → test a ≡ true
      → find_slot test (packed entries (suc k)) ≡ none
      → find_slot kind (packed entries (suc k)) ≡ some old
      → find_slot test (replace_slot kind (λ x. some (change x)) (packed (entries ++ a ∷ []) k))
        ≡ some a
  unfolding find_slot replace_slot
  find_slot-shadowed [] same h none_pass found =
      absurd (ground (arith, find_slot-packed_nil kind k))
  find_slot-shadowed (b ∷ entries) {old} same h none_pass found =
      ground
        (arith, same b, find_slot-appended entries h, find_slot-shadowed entries {old = old} same h)
