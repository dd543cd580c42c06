-- ===== src/Esphome/Switch/Changes.antt =====
-- A switch reacts to changes only.
use esphome_hacan.Base.{
  ℕ, Bool, true, false, ◌≡◌, refl, ap, sym, ◌∙◌, inl, inr, Option, none, some, List, [], ◌∷◌, ◌++◌,
  arith, if◌then◌else◌, Bool-cases,
}
use esphome_hacan.Runtime.Env.{Reaction}
use esphome_hacan.Esphome.Framework.{Framework, quiet}
use esphome_hacan.Esphome.Switch.{Switch, is_current, apply_state, change_state}

-- The requests without those that ask for the state already applied.
pub changes : Option Bool → List Bool → List Bool
changes applied [] = []
changes applied (on ∷ ons) =
    let rest = changes applied ons in
    let more = changes (some on) ons in if is_current applied on then rest else on ∷ more

-- The state after the requests: the last of them.
pub last_request : Option Bool → List Bool → Option Bool
last_request applied [] = applied
last_request applied (on ∷ ons) = last_request (some on) ons

pub applied_some :
    (on : Bool) (applied : Option Bool) → is_current applied on ≡ true → applied ≡ some on
applied_some on none e = cc
applied_some true (some true) e = refl
applied_some true (some false) e = cc
applied_some false (some true) e = cc
applied_some false (some false) e = refl

module _ {X : Type 0} (fw : Framework X) (self : ℕ) where
  -- Requests one after the other, with all that they publish.
  pub drive : List Bool → Switch → X → Switch × Reaction X
  drive [] s x = (s, quiet x)
  drive (on ∷ ons) s x =
      let (s', r) = apply_state fw self on s x in
      let (s'', later) = drive ons s' r.world in
      (s'', record later { publications = r.publications ++ later.publications })

  pub apply_state-current :
      (on : Bool) (s : Switch) (x : X)
      → is_current s.applied_state on ≡ true
      → apply_state fw self on s x ≡ (s, quiet x)
  unfolding apply_state
  apply_state-current on s x e = ground arith

  pub apply_state-changed :
      (output : ℕ) (on : Bool) (s : Switch) (x : X)
      → s.output ≡ some output
      → s.has_hacan ≡ true
      → is_current s.applied_state on ≡ false
      → apply_state fw self on s x ≡ change_state fw self output on s x
  unfolding apply_state
  apply_state-changed output on s x o h e = ground arith

  drive-current :
      (on : Bool) (ons : List Bool) (s : Switch) (x : X)
      → is_current s.applied_state on ≡ true
      → drive (on ∷ ons) s x ≡ drive ons s x
  unfolding drive
  drive-current on ons s x e = simp (apply_state-current on s x e) refl

  changes-current :
      (applied : Option Bool) (on : Bool) (ons : List Bool)
      → is_current applied on ≡ true
      → changes applied (on ∷ ons) ≡ changes applied ons
  unfolding changes
  changes-current applied on ons e = ground arith

  changes-changed :
      (applied : Option Bool) (on : Bool) (ons : List Bool)
      → is_current applied on ≡ false
      → changes applied (on ∷ ons) ≡ on ∷ changes (some on) ons
  unfolding changes
  changes-changed applied on ons e = ground arith

  -- What a request and the later ones do together.
  abbrev joined : Switch × Reaction X → Switch × Reaction X → Switch × Reaction X
  joined first later =
      (later.0, record (later.1) { publications = first.1.publications ++ later.1.publications })

  drive-changed :
      (output : ℕ) (on : Bool) (ons : List Bool) (s : Switch) (x : X)
      → s.output ≡ some output
      → s.has_hacan ≡ true
      → is_current s.applied_state on ≡ false
      → let first = change_state fw self output on s x in
        drive (on ∷ ons) s x ≡ joined first (drive ons first.0 first.1.world)
  unfolding drive
  drive-changed output on ons s x o h e = simp (apply_state-changed output on s x o h e) refl

  -- A configured switch that is driven by requests does the same if those for its current state are
  -- left out: it writes its output and publishes at each change, and at no other request. Its state
  -- is the last request.
  pub drive-changes :
      (output : ℕ) (ons : List Bool) (s : Switch) (x : X)
      → s.output ≡ some output
      → s.has_hacan ≡ true
      → (drive ons s x ≡ drive (changes s.applied_state ons) s x)
        × ((drive ons s x).0.applied_state ≡ last_request s.applied_state ons)
  unfolding last_request change_state
  drive-changes output [] s x o h = unfold drive changes in (refl, refl)
  drive-changes output (on ∷ ons) s x o h = elim (Bool-cases (is_current s.applied_state on)) [
    | inl current ↦
        let rest = drive-changes output ons s x o h in
        let is_on = applied_some on s.applied_state current in
        (
          drive-current on ons s x current
              ∙ rest.0
              ∙ ap (λ l. drive l s x) (sym (changes-current s.applied_state on ons current)),
          ap (λ (d : Switch × Reaction X). d.0.applied_state) (drive-current on ons s x current)
              ∙ rest.1
              ∙ ap (λ a. last_request a ons) is_on,
        )
    | inr changed ↦
        let first = change_state fw self output on s x in
        let rest = drive-changes output ons first.0 first.1.world o h in
        let step = λ (l : List Bool). drive-changed output on l s x o h changed in
        (
          step ons
              ∙ ap (joined first) rest.0
              ∙ sym (step (changes (some on) ons))
              ∙ ap (λ l. drive l s x) (sym (changes-changed s.applied_state on ons changed)),
          ap (λ (d : Switch × Reaction X). d.0.applied_state) (step ons) ∙ rest.1,
        )
  ]
