-- ===== src/Esphome/Component/Configuration.antt =====
-- The endpoints that a configuration adds: no two share an entity or an endpoint.
use esphome_hacan.Base.{
  ℕ, Bool, ◌&&◌, ◌||◌, ◌≡◌, ◌==◌, refl, subst, inl, inr, Option, some, none, List, [], ◌∷◌, arith,
  Option-cases, Bool-cases, find_slot, fill_slot, Distinct, fill_slot-Distinct,
}
use esphome_hacan.Esphome.Component.{
  HacanComponent, OwnedEndpoint, with_handler, merge_endpoint, new_endpoint, add_endpoint,
  add_owned_endpoint,
}

abbrev pub clash : OwnedEndpoint → OwnedEndpoint → Bool
clash o p = p.entity == o.entity || p.endpoint == o.endpoint

find_slot-merge_endpoint :
    (o : OwnedEndpoint) (entity endpoint : ℕ) (handler : Option ℕ)
    (slots merged : List (Option OwnedEndpoint))
    → find_slot (clash o) slots ≡ none
    → merge_endpoint entity endpoint handler slots ≡ some merged
    → find_slot (clash o) merged ≡ none
unfolding find_slot merge_endpoint
find_slot-merge_endpoint o entity endpoint handler [] merged f e = cc
find_slot-merge_endpoint o entity endpoint handler (none ∷ slots) merged f e =
    elim (Option-cases (merge_endpoint entity endpoint handler slots)) [
      | inl new ↦ ground arith
      | inr (rest, more) ↦
          ground (arith, find_slot-merge_endpoint o entity endpoint handler slots rest)
    ]
find_slot-merge_endpoint o entity endpoint none (some p ∷ slots) merged f e =
    elim (Option-cases (merge_endpoint entity endpoint none slots)) [
      | inl new ↦ ground arith
      | inr (rest, more) ↦
          ground (arith, find_slot-merge_endpoint o entity endpoint none slots rest)
    ]
find_slot-merge_endpoint o entity endpoint (some h) (some p ∷ slots) merged f e =
    elim (Option-cases (merge_endpoint entity endpoint (some h) slots)) [
      | inl new ↦ ground arith
      | inr (rest, more) ↦
          ground (arith, find_slot-merge_endpoint o entity endpoint (some h) slots rest)
    ]

-- What the first loop lets pass clashes with no slot.
merge_endpoint-none :
    (entity endpoint : ℕ) (handler : Option ℕ) (slots : List (Option OwnedEndpoint))
    → merge_endpoint entity endpoint handler slots ≡ none
    → find_slot (clash (new_endpoint entity endpoint handler)) slots ≡ none
unfolding find_slot merge_endpoint
merge_endpoint-none entity endpoint handler [] e = refl
merge_endpoint-none entity endpoint handler (none ∷ slots) e =
    ground (arith, merge_endpoint-none entity endpoint handler slots)
merge_endpoint-none entity endpoint handler (some p ∷ slots) e =
    ground (arith, merge_endpoint-none entity endpoint handler slots)

with_handler-clash :
    (handler : Option ℕ) (o p : OwnedEndpoint) → clash (with_handler handler o) p ≡ clash o p
with_handler-clash none o p = refl
with_handler-clash (some h) o p = refl

with_handler-Distinct :
    (handler : Option ℕ) (o : OwnedEndpoint) (slots : List (Option OwnedEndpoint))
    → Distinct clash (some o ∷ slots)
    → Distinct clash (some (with_handler handler o) ∷ slots)
with_handler-Distinct none o slots d = d
with_handler-Distinct (some h) o slots d = d

merge_endpoint-Distinct :
    (entity endpoint : ℕ) (handler : Option ℕ) (slots merged : List (Option OwnedEndpoint))
    → merge_endpoint entity endpoint handler slots ≡ some merged
    → Distinct clash slots
    → Distinct clash merged
unfolding merge_endpoint
merge_endpoint-Distinct entity endpoint handler [] merged e d = cc
merge_endpoint-Distinct entity endpoint handler (none ∷ slots) merged e d =
    elim (Option-cases (merge_endpoint entity endpoint handler slots)) [
      | inl new ↦ absurd (ground (arith, new, e))
      | inr (rest, more) ↦
          let put : none ∷ rest ≡ merged = ground (arith, more, e) in
          subst (Distinct clash) put
            (merge_endpoint-Distinct entity endpoint handler slots rest more d)
    ]
merge_endpoint-Distinct entity endpoint handler (some o ∷ slots) merged e d =
    elim (Bool-cases (o.entity == entity && o.endpoint == endpoint)) [
      | inl same ↦
          let put : some (with_handler handler o) ∷ slots ≡ merged = ground (arith, same, e) in
          subst (Distinct clash) put (with_handler-Distinct handler o slots d)
      | inr other ↦ elim (Bool-cases (o.entity == entity || o.endpoint == endpoint)) [
        | inl clashes ↦
            let put : some o ∷ slots ≡ merged = ground (arith, other, clashes, e) in
            subst (Distinct clash) put d
        | inr apart ↦ elim (Option-cases (merge_endpoint entity endpoint handler slots)) [
          | inl new ↦ absurd (ground (arith, other, apart, new, e))
          | inr (rest, more) ↦
              let put : some o ∷ rest ≡ merged = ground (arith, other, apart, more, e) in
              subst (Distinct clash) put (
                find_slot-merge_endpoint o entity endpoint handler slots rest d.0 more,
                merge_endpoint-Distinct entity endpoint handler slots rest more d.1,
              )
        ]
      ]
    ]

add_endpoint-Distinct :
    (entity endpoint : ℕ) (handler : Option ℕ) (slots : List (Option OwnedEndpoint))
    → Distinct clash slots
    → Distinct clash (add_endpoint entity endpoint handler slots)
unfolding add_endpoint
add_endpoint-Distinct entity endpoint handler slots d =
    elim (Option-cases (merge_endpoint entity endpoint handler slots)) [
      | inr (merged, e) ↦
          simp (e, add_endpoint) (merge_endpoint-Distinct entity endpoint handler slots merged e d)
      | inl new ↦ elim (Option-cases (fill_slot (new_endpoint entity endpoint handler) slots)) [
        | inl full ↦ simp (new, full, add_endpoint) d
        | inr (filled, e) ↦
            simp (new, e, add_endpoint)
              (fill_slot-Distinct clash (new_endpoint entity endpoint handler) slots filled
                (λ x y. ground arith) (merge_endpoint-none entity endpoint handler slots new) e d)
      ]
    ]

-- The calls of `add_owned_endpoint` that the configuration makes, in order.
unfoldable pub configure : List OwnedEndpoint → HacanComponent → HacanComponent
configure [] c = c
configure (o ∷ rest) c = configure rest (add_owned_endpoint o.entity o.endpoint o.handler c)

pub configure-Distinct :
    (calls : List OwnedEndpoint) (c : HacanComponent)
    → Distinct clash c.owned_endpoints
    → Distinct clash (configure calls c).owned_endpoints
unfolding configure add_owned_endpoint
configure-Distinct [] c d = d
configure-Distinct (o ∷ rest) c d =
    configure-Distinct rest _
      (add_endpoint-Distinct o.entity o.endpoint o.handler c.owned_endpoints d)
