-- ===== src/Esphome/Board/Listeners.antt =====
-- The event sources of a device: the listener of each binding finds the binding again.
use esphome_hacan.Base.{
  ℕ, zero, suc, ◌/◌, ◌%◌, ◌≤◌, ◌<◌, ◌≡◌, ◌⊎◌, ◌==◌, refl, ap, sym, ◌∙◌, inl, inr, some, none, List,
  [], ◌∷◌, ◌++◌, arith, length, take, set, get_or, get_elem?, get_elem?-set_self, length-set,
  length-take, take-set, Bool-cases,
}
use esphome_hacan.Esphome.EventSource.{
  EventSourceBinding, EventSources, unbound, configure, add_event_source, max_event_sources,
}
use esphome_hacan.Esphome.Switch
use esphome_hacan.Esphome.Switch.{Switch}
use esphome_hacan.Esphome.Framework.{Framework}
use esphome_hacan.Esphome.Board.{Device, device_sources, listener_of, binding_of}

pub record IsBound (s : EventSources) : Type 0 where
  pub eight : length s.bindings ≡ max_event_sources
  pub count_fits : s.count ≤ max_event_sources

-- The configured bindings, in order.
abbrev pub bound : EventSources → List EventSourceBinding
bound s = take s.count s.bindings

get_or-set :
    {A : Type 0} (xs : List A) (i : ℕ) (v d : A) → i < length xs → get_or (set xs i v) i d ≡ v
get_or-set [] i v d h = absurd (omega arith)
get_or-set (x ∷ xs) zero v d h = refl
get_or-set (x ∷ xs) (suc i) v d h = get_or-set xs i v d (omega arith)

-- A binding is added at the end while there is room, and its index is the number of those before.
-- The ninth is refused: there is no index, and nothing changes.
pub bound-add_event_source :
    (self entity event action : ℕ) (s : EventSources)
    → IsBound s
    → let added = add_event_source self entity event action s in
      ((added.1 ≡ some (length (bound s)))
        × (bound added.0 ≡ bound s ++ configure entity event action (some self) unbound ∷ [])
        × IsBound added.0)
      ⊎ ((length (bound s) ≡ max_event_sources) × (added ≡ (s, none)))
unfolding add_event_source
bound-add_event_source self entity event action s h =
    let new = configure entity event action (some self) unbound in
    ground (
      arith,
      h.eight,
      h.count_fits,
      length-take {0} s.count s.bindings,
      take-set s.count s.bindings new,
      length-set s.bindings s.count new,
    )

binding_of-listener_of :
    (h i : ℕ) (devices : List Device) (d : Device)
    → get_elem? devices h ≡ some d
    → i < max_event_sources
    → binding_of (listener_of h i) devices ≡ get_or (device_sources d).bindings i unbound
unfolding binding_of
binding_of-listener_of h i devices d e lt =
    let place : listener_of h i / max_event_sources ≡ h = omega arith in
    let index : listener_of h i % max_event_sources ≡ i = omega arith in
    simp (place, index, e, binding_of) refl

-- A switch of a board to which an event source is added, which gives an index: the listener of that
-- index has the binding that was asked for.
pub binding_of-add_source :
    {X : Type 0} (fw : Framework X) (self entity event action index : ℕ) (s : Switch)
    (devices : List Device)
    → IsBound s.event_sources
    → get_elem? devices self ≡ some (Device.switch s)
    → (Switch.add_source fw self entity event action s).1 ≡ some index
    → binding_of
        (listener_of self index)
        (set devices self (Device.switch (Switch.add_source fw self entity event action s).0))
      ≡ configure entity event action (some self) unbound
unfolding Switch.add_source add_event_source
binding_of-add_source fw self entity event action index s devices h there given =
    let sources = s.event_sources in
    let new = configure entity event action (some self) unbound in
    let d = Device.switch (Switch.add_source fw self entity event action s).0 in
    elim (Bool-cases (sources.count == max_event_sources)) [
      | inl full ↦ absurd (ground (arith, full, given))
      | inr room ↦
          let place : sources.count ≡ index = ground (arith, room, given) in
          let lt : sources.count < max_event_sources = ground (arith, room, h.count_fits) in
          let read =
            get_or-set sources.bindings sources.count new unbound (omega (arith, h.eight)) in
          binding_of-listener_of self index (set devices self d) d
            (get_elem?-set_self devices self d there) (omega (arith, lt, place))
          ∙ ap (λ i. get_or (device_sources d).bindings i unbound) (sym place)
          ∙ ground (arith, room, read)
    ]
