-- ===== src/Base/Clashes.antt =====
-- Slots of which no two filled ones clash.
use mathlib.Core.Path.{◌≡◌, refl, subst, ◌∙◌}
use mathlib.Core.Logic.{inl, inr}
use native.Mathlib.Omega.{arith}
use mathlib.Core.Bool.{Bool, false}
use mathlib.Core.List.{List, [], ◌∷◌, ◌++◌}
use mathlib.Core.Option.{Option, none, some}
use esphome_hacan.Base.Tests.{Option-cases, Bool-cases}
use esphome_hacan.Base.Slots.{find_slot, fill_slot, replace_slot}

module _ {ℓ} {A : Type ℓ} (test : A → Bool) where
  -- Nothing that passes the test comes with a new entry that does not.
  pub find_slot-fill_slot_none :
      (a : A) (slots filled : List (Option A))
      → find_slot test slots ≡ none
      → fill_slot a slots ≡ some filled
      → test a ≡ false
      → find_slot test filled ≡ none
  unfolding find_slot fill_slot
  find_slot-fill_slot_none a [] filled f e h = cc
  find_slot-fill_slot_none a (none ∷ slots) filled f e h = ground arith
  find_slot-fill_slot_none a (some b ∷ slots) filled f e h =
      elim (Option-cases (fill_slot a slots)) [
        | inl full ↦ ground arith
        | inr (rest, more) ↦ ground (arith, find_slot-fill_slot_none a slots rest)
      ]

  -- Nor with an entry removed.
  pub find_slot-clear :
      (kind : A → Bool) (slots : List (Option A))
      → find_slot test slots ≡ none
      → find_slot test (replace_slot kind (λ a. none) slots) ≡ none
  unfolding find_slot replace_slot
  find_slot-clear kind [] f = refl
  find_slot-clear kind (none ∷ slots) f = find_slot-clear kind slots f
  find_slot-clear kind (some b ∷ slots) f = ground (arith, find_slot-clear kind slots)

  find_slot-append_some :
      (a : A) (slots : List (Option A))
      → find_slot test slots ≡ none
      → test a ≡ false
      → find_slot test (slots ++ some a ∷ []) ≡ none
  unfolding find_slot
  find_slot-append_some a [] f h = ground arith
  find_slot-append_some a (none ∷ slots) f h = find_slot-append_some a slots f h
  find_slot-append_some a (some b ∷ slots) f h = ground (arith, find_slot-append_some a slots)

  find_slot-append_none :
      (slots : List (Option A))
      → find_slot test slots ≡ none
      → find_slot test (slots ++ none ∷ []) ≡ none
  unfolding find_slot
  find_slot-append_none [] f = refl
  find_slot-append_none (none ∷ slots) f = find_slot-append_none slots f
  find_slot-append_none (some b ∷ slots) f = ground (arith, find_slot-append_none slots)

module _ {ℓ} {A : Type ℓ} (clash : A → A → Bool) where
  abbrev pub Distinct : List (Option A) → Type ℓ
  Distinct [] = Unit
  Distinct (none ∷ slots) = Distinct slots
  Distinct (some a ∷ slots) = (find_slot (clash a) slots ≡ none) × Distinct slots

  pub fill_slot-Distinct :
      (a : A) (slots filled : List (Option A))
      → ((x y : A) → clash x y ≡ clash y x)
      → find_slot (clash a) slots ≡ none
      → fill_slot a slots ≡ some filled
      → Distinct slots
      → Distinct filled
  unfolding find_slot fill_slot
  fill_slot-Distinct a [] filled symmetric f e d = cc
  fill_slot-Distinct a (none ∷ slots) filled symmetric f e d =
      let put : some a ∷ slots ≡ filled = cc in subst Distinct put (f, d)
  fill_slot-Distinct a (some b ∷ slots) filled symmetric f e d =
      let passed : (clash a b ≡ false) × (find_slot (clash a) slots ≡ none) = ground arith in
      let apart : clash b a ≡ false = symmetric b a ∙ passed.0 in
      elim (Option-cases (fill_slot a slots)) [
        | inl full ↦ absurd (ground (arith, full, e))
        | inr (rest, more) ↦
            let put : some b ∷ rest ≡ filled = ground (arith, more, e) in
            subst Distinct put (
              find_slot-fill_slot_none (clash b) a slots rest d.0 more apart,
              fill_slot-Distinct a slots rest symmetric passed.1 more d.1,
            )
      ]

  pub clear-Distinct :
      (kind : A → Bool) (slots : List (Option A))
      → Distinct slots
      → Distinct (replace_slot kind (λ a. none) slots)
  unfolding replace_slot
  clear-Distinct kind [] d = d
  clear-Distinct kind (none ∷ slots) d = clear-Distinct kind slots d
  clear-Distinct kind (some b ∷ slots) d = elim (Bool-cases (kind b)) [
    | inl gone ↦ simp gone d.1
    | inr kept ↦ simp kept (find_slot-clear (clash b) kind slots d.0, clear-Distinct kind slots d.1)
  ]

  pub append_none-Distinct :
      (slots : List (Option A)) → Distinct slots → Distinct (slots ++ none ∷ [])
  append_none-Distinct [] d = d
  append_none-Distinct (none ∷ slots) d = append_none-Distinct slots d
  append_none-Distinct (some b ∷ slots) d =
      (find_slot-append_none (clash b) slots d.0, append_none-Distinct slots d.1)

  pub append_some-Distinct :
      (a : A) (slots : List (Option A))
      → ((x y : A) → clash x y ≡ clash y x)
      → find_slot (clash a) slots ≡ none
      → Distinct slots
      → Distinct (slots ++ some a ∷ [])
  unfolding find_slot
  append_some-Distinct a [] symmetric f d = (refl, tt)
  append_some-Distinct a (none ∷ slots) symmetric f d = append_some-Distinct a slots symmetric f d
  append_some-Distinct a (some b ∷ slots) symmetric f d =
      let passed : (clash a b ≡ false) × (find_slot (clash a) slots ≡ none) = ground arith in
      (
        find_slot-append_some (clash b) a slots d.0 (symmetric b a ∙ passed.0),
        append_some-Distinct a slots symmetric passed.1 d.1,
      )
