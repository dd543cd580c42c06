-- ===== src/Base/Room.antt =====
-- The empty slots of an array, and what a write to one of them leaves.
use Prim.Native.Nat.{ℕ, suc, ◌<◌}
use mathlib.Core.Path.{◌≡◌, refl}
use mathlib.Core.Logic.{◌⊎◌, inl, inr}
use native.Mathlib.Omega.{arith}
use mathlib.Core.Bool.{Bool, true, false}
use mathlib.Core.List.{List, [], ◌∷◌}
use mathlib.Core.Option.{Option, none, some}
use esphome_hacan.Base.Tests.{zero_or_suc, Option-cases, Bool-cases}
use esphome_hacan.Base.Slots.{find_slot, fill_slot, replace_slot}

module _ {ℓ} {A : Type ℓ} where
  abbrev pub room : List (Option A) → ℕ
  room [] = 0
  room (none ∷ slots) = suc (room slots)
  room (some a ∷ slots) = room slots

  -- A write into the first empty slot succeeds exactly if there is one, and takes it.
  pub room-fill_slot :
      (a : A) (slots : List (Option A))
      → 0 < room slots
      → (filled : List (Option A)) × (fill_slot a slots ≡ some filled)
        × (suc (room filled) ≡ room slots)
  unfolding fill_slot
  room-fill_slot a [] h = absurd (omega arith)
  room-fill_slot a (none ∷ slots) h = (some a ∷ slots, refl, refl)
  room-fill_slot a (some b ∷ slots) h =
      let (rest, e, less) = room-fill_slot a slots h in (some b ∷ rest, ground (arith, e), less)

  pub fill_slot-full : (a : A) (slots : List (Option A)) → room slots ≡ 0 → fill_slot a slots ≡ none
  unfolding fill_slot
  fill_slot-full a [] h = refl
  fill_slot-full a (none ∷ slots) h = absurd (omega arith)
  fill_slot-full a (some b ∷ slots) h = ground (arith, fill_slot-full a slots)

  pub fill_slot_room :
      (a : A) (slots : List (Option A))
      → ((fill_slot a slots ≡ none) × (room slots ≡ 0))
        ⊎ ((filled : List (Option A)) × (fill_slot a slots ≡ some filled)
            × (suc (room filled) ≡ room slots))
  fill_slot_room a slots = elim (zero_or_suc (room slots)) [
    | inl full ↦ inl (fill_slot-full a slots full, full)
    | inr (k, more) ↦ inr (room-fill_slot a slots (omega arith))
  ]

  pub room-replace_slot :
      (kind : A → Bool) (change : A → A) (slots : List (Option A))
      → room (replace_slot kind (λ x. some (change x)) slots) ≡ room slots
  unfolding replace_slot
  room-replace_slot kind change [] = refl
  room-replace_slot kind change (none ∷ slots) = ground (arith, room-replace_slot kind change slots)
  room-replace_slot kind change (some a ∷ slots) = elim (Bool-cases (kind a)) [
    | inl here ↦ simp (here, replace_slot) refl
    | inr there ↦ simp (there, replace_slot) (room-replace_slot kind change slots)
  ]

module _ {ℓ} {A : Type ℓ} (test : A → Bool) where
  -- What the test finds is found again if an entry that fails it comes in.
  pub find_slot-fill_slot_other :
      (a r : A) (slots filled : List (Option A))
      → find_slot test slots ≡ some r
      → fill_slot a slots ≡ some filled
      → test a ≡ false
      → find_slot test filled ≡ some r
  unfolding find_slot fill_slot
  find_slot-fill_slot_other a r [] filled f e h = cc
  find_slot-fill_slot_other a r (none ∷ slots) filled f e h = ground arith
  find_slot-fill_slot_other a r (some b ∷ slots) filled f e h =
      elim (Option-cases (fill_slot a slots)) [
        | inl full ↦ ground arith
        | inr (rest, more) ↦ ground (arith, find_slot-fill_slot_other a r slots rest)
      ]

  -- Or if the first entry of another kind changes within its kind.
  pub find_slot-replace_slot_other :
      (kind : A → Bool) (change : A → A) (r : A) (slots : List (Option A))
      → ((x : A) → kind x ≡ true → test x ≡ false)
      → ((x : A) → kind x ≡ true → test (change x) ≡ false)
      → find_slot test slots ≡ some r
      → find_slot test (replace_slot kind (λ x. some (change x)) slots) ≡ some r
  unfolding find_slot replace_slot
  find_slot-replace_slot_other kind change r [] apart kept f = cc
  find_slot-replace_slot_other kind change r (none ∷ slots) apart kept f =
      find_slot-replace_slot_other kind change r slots apart kept f
  find_slot-replace_slot_other kind change r (some b ∷ slots) apart kept f =
      ground (arith, apart b, kept b, find_slot-replace_slot_other kind change r slots apart kept)
