-- ===== src/Esphome/Component/Ownable.antt =====
-- The endpoints that a configuration adds: the array keeps its size, and if the calls have numbers
-- that stand for an entity and an endpoint, so have the slots.
use esphome_hacan.Base.{
  ℕ, suc, Bool, true, not, ◌&&◌, ◌||◌, ◌≡◌, ◌==◌, refl, ap, subst, ◌∙◌, inl, inr, Option, some,
  none, List, [], ◌∷◌, arith, All, Option-cases, Bool-cases, fill_slot, length,
}
use esphome_hacan.Esphome.Component.{
  HacanComponent, OwnedEndpoint, with_handler, merge_endpoint, new_endpoint, add_endpoint,
  add_owned_endpoint,
}
use esphome_hacan.Esphome.Component.Configuration.{configure}

-- The numbers that stand for no entity or no single endpoint.
abbrev pub is_ownable : OwnedEndpoint → Bool
is_ownable o = not (o.entity == 0 || o.endpoint == 0 || o.endpoint == 0xff)

abbrev pub AllOwnable : List (Option OwnedEndpoint) → Type 0
AllOwnable [] = Unit {0}
AllOwnable (none ∷ slots) = AllOwnable slots
AllOwnable (some o ∷ slots) = (is_ownable o ≡ true) × AllOwnable slots

AllOwnable-fill_slot :
    (o : OwnedEndpoint) (slots filled : List (Option OwnedEndpoint))
    → fill_slot o slots ≡ some filled
    → is_ownable o ≡ true
    → AllOwnable slots
    → AllOwnable filled × (length filled ≡ length slots)
unfolding fill_slot
AllOwnable-fill_slot o [] filled e h a = cc
AllOwnable-fill_slot o (none ∷ slots) filled e h a =
    let put : some o ∷ slots ≡ filled = cc in
    subst (λ l. AllOwnable l × (length l ≡ suc (length slots))) put ((h, a), refl)
AllOwnable-fill_slot o (some p ∷ slots) filled e h a = elim (Option-cases (fill_slot o slots)) [
  | inl full ↦ absurd (ground (arith, full, e))
  | inr (rest, more) ↦
      let put : some p ∷ rest ≡ filled = ground (arith, more, e) in
      let later = AllOwnable-fill_slot o slots rest more h a.1 in
      subst (λ l. AllOwnable l × (length l ≡ suc (length slots))) put
        ((a.0, later.0), ap suc later.1)
]

with_handler-ownable :
    (handler : Option ℕ) (o : OwnedEndpoint) → is_ownable (with_handler handler o) ≡ is_ownable o
with_handler-ownable none o = refl
with_handler-ownable (some h) o = refl

AllOwnable-merge_endpoint :
    (entity endpoint : ℕ) (handler : Option ℕ) (slots merged : List (Option OwnedEndpoint))
    → merge_endpoint entity endpoint handler slots ≡ some merged
    → AllOwnable slots
    → AllOwnable merged × (length merged ≡ length slots)
unfolding merge_endpoint
AllOwnable-merge_endpoint entity endpoint handler [] merged e a = cc
AllOwnable-merge_endpoint entity endpoint handler (none ∷ slots) merged e a =
    elim (Option-cases (merge_endpoint entity endpoint handler slots)) [
      | inl new ↦ absurd (ground (arith, new, e))
      | inr (rest, more) ↦
          let put : none ∷ rest ≡ merged = ground (arith, more, e) in
          let later = AllOwnable-merge_endpoint entity endpoint handler slots rest more a in
          subst (λ l. AllOwnable l × (length l ≡ suc (length slots))) put (later.0, ap suc later.1)
    ]
AllOwnable-merge_endpoint entity endpoint handler (some o ∷ slots) merged e a =
    elim (Bool-cases (o.entity == entity && o.endpoint == endpoint)) [
      | inl same ↦
          let put : some (with_handler handler o) ∷ slots ≡ merged = ground (arith, same, e) in
          subst (λ l. AllOwnable l × (length l ≡ suc (length slots))) put
            ((with_handler-ownable handler o ∙ a.0, a.1), refl)
      | inr other ↦ elim (Bool-cases (o.entity == entity || o.endpoint == endpoint)) [
        | inl clashes ↦
            let put : some o ∷ slots ≡ merged = ground (arith, other, clashes, e) in
            subst (λ l. AllOwnable l × (length l ≡ suc (length slots))) put (a, refl)
        | inr apart ↦ elim (Option-cases (merge_endpoint entity endpoint handler slots)) [
          | inl new ↦ absurd (ground (arith, other, apart, new, e))
          | inr (rest, more) ↦
              let put : some o ∷ rest ≡ merged = ground (arith, other, apart, more, e) in
              let later = AllOwnable-merge_endpoint entity endpoint handler slots rest more a.1 in
              subst (λ l. AllOwnable l × (length l ≡ suc (length slots))) put
                ((a.0, later.0), ap suc later.1)
        ]
      ]
    ]

add_endpoint-ownable :
    (o : OwnedEndpoint) (slots : List (Option OwnedEndpoint))
    → is_ownable o ≡ true
    → AllOwnable slots
    → AllOwnable (add_endpoint o.entity o.endpoint o.handler slots)
      × (length (add_endpoint o.entity o.endpoint o.handler slots) ≡ length slots)
unfolding add_endpoint
add_endpoint-ownable o slots h a =
    elim (Option-cases (merge_endpoint o.entity o.endpoint o.handler slots)) [
      | inr (merged, e) ↦
          simp (e, add_endpoint)
            (AllOwnable-merge_endpoint o.entity o.endpoint o.handler slots merged e a)
      | inl new ↦
          elim (Option-cases (fill_slot (new_endpoint o.entity o.endpoint o.handler) slots)) [
            | inl full ↦ simp (new, full, add_endpoint) (a, refl)
            | inr (filled, e) ↦
                simp (new, e, add_endpoint)
                  (AllOwnable-fill_slot (new_endpoint o.entity o.endpoint o.handler) slots filled e
                    h a)
          ]
    ]

pub configure-ownable :
    (calls : List OwnedEndpoint) (c : HacanComponent)
    → All (λ o. is_ownable o ≡ true) calls
    → AllOwnable c.owned_endpoints
    → AllOwnable (configure calls c).owned_endpoints
      × (length (configure calls c).owned_endpoints ≡ length c.owned_endpoints)
unfolding configure add_owned_endpoint
configure-ownable [] c h a = (a, refl)
configure-ownable (o ∷ rest) c h a =
    let step = add_endpoint-ownable o c.owned_endpoints h.0 a in
    let later =
      configure-ownable rest (add_owned_endpoint o.entity o.endpoint o.handler c) h.1 step.0 in
    (later.0, later.1 ∙ step.1)
