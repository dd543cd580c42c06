-- ===== src/Esphome/System/Setup.antt =====
-- The setup of a board: the runtime owns what the configuration added.
use mathlib.Core.List.{append_assoc, append-nil}
use esphome_hacan.Base.{
  ℕ, zero, suc, ◌-◌, ◌≤◌, true, false, ◌≡◌, refl, ap, sym, ◌∙◌, Option, some, none, List, [], ◌∷◌,
  ◌++◌, arith, All, length, find_slot, fill_slot, packed, fill_slot-packed, Distinct,
}
use esphome_hacan.Runtime.Env.{Env}
use esphome_hacan.Runtime.Node.{Node, EntityLocation}
use esphome_hacan.Runtime.Registry.{
  owned_return, add_owned, register_owned_entity, register_endpoint,
}
use esphome_hacan.Runtime.Sound.{overlaps}
use esphome_hacan.Esphome.Component.{OwnedEndpoint}
use esphome_hacan.Esphome.Component.Configuration.{clash}
use esphome_hacan.Esphome.Component.Ownable.{is_ownable, AllOwnable}
use esphome_hacan.Esphome.System.{register_handler, register_endpoints}

abbrev pub own_of : OwnedEndpoint → EntityLocation
own_of o = record { entity = o.entity; node = 0; endpoint = o.endpoint }

-- What the slots configure, in order.
abbrev pub configured : List (Option OwnedEndpoint) → List EntityLocation
configured [] = []
configured (none ∷ slots) = configured slots
configured (some o ∷ slots) = own_of o ∷ configured slots

-- What is owned already overlaps with nothing that the slots configure.
abbrev IsApart : EntityLocation → List (Option OwnedEndpoint) → Type 0
IsApart e [] = Unit {0}
IsApart e (none ∷ slots) = IsApart e slots
IsApart e (some o ∷ slots) = (overlaps (own_of o) e ≡ false) × IsApart e slots

IsApart-of_clash :
    (o : OwnedEndpoint) (slots : List (Option OwnedEndpoint))
    → find_slot (clash o) slots ≡ none
    → IsApart (own_of o) slots
unfolding find_slot
IsApart-of_clash o [] f = tt
IsApart-of_clash o (none ∷ slots) f = IsApart-of_clash o slots f
IsApart-of_clash o (some p ∷ slots) f =
    let passed : (clash o p ≡ false) × (find_slot (clash o) slots ≡ none) = ground arith in
    (ground (arith, passed.0), IsApart-of_clash o slots passed.1)

abbrev AllApart : List EntityLocation → List (Option OwnedEndpoint) → Type 0
AllApart entries slots = All (λ e. IsApart e slots) entries

All-append_one {ℓ κ} :
    {A : Type ℓ} (P : A → Type κ) (xs : List A) (a : A) → All P xs → P a → All P (xs ++ a ∷ [])
All-append_one P [] a h p = (p, tt)
All-append_one P (x ∷ xs) a h p = (h.0, All-append_one P xs a h.1 p)

-- The slots behind the first one.
AllApart-tail :
    (o : OwnedEndpoint) (entries : List EntityLocation) (slots : List (Option OwnedEndpoint))
    → AllApart entries (some o ∷ slots)
    → AllApart entries slots
AllApart-tail o [] slots h = tt
AllApart-tail o (e ∷ entries) slots h = (h.0.1, AllApart-tail o entries slots h.1)

owned_return-packed :
    (o : OwnedEndpoint) (entries : List EntityLocation) (slots : List (Option OwnedEndpoint))
    (k : ℕ)
    → AllApart entries (some o ∷ slots)
    → owned_return o.entity o.endpoint (packed entries k) ≡ none
unfolding owned_return
owned_return-packed o [] slots zero h = refl
owned_return-packed o [] slots (suc k) h = owned_return-packed o [] slots k h
owned_return-packed o (e ∷ entries) slots k h =
    ground (arith, h.0.0, owned_return-packed o entries slots k h.1)

register_owned_entity-packed :
    (o : OwnedEndpoint) (entries : List EntityLocation) (slots : List (Option OwnedEndpoint))
    (k : ℕ) (n : Node)
    → n.owned_entities ≡ packed entries (suc k)
    → is_ownable o ≡ true
    → AllApart entries (some o ∷ slots)
    → (register_owned_entity o.entity o.endpoint n).0.owned_entities
      ≡ packed (entries ++ own_of o ∷ []) k
unfolding register_owned_entity add_owned
register_owned_entity-packed o entries slots k n e ownable apart =
    let free : owned_return o.entity o.endpoint n.owned_entities ≡ none =
      ap (owned_return o.entity o.endpoint) e ∙ owned_return-packed o entries slots (suc k) apart in
    let filled : fill_slot (own_of o) n.owned_entities
        ≡ some (packed (entries ++ own_of o ∷ []) k) =
      ap (fill_slot (own_of o)) e ∙ fill_slot-packed (own_of o) entries k in
    ground (arith, free, filled)

module _ {W : Type 0} (env : Env W) where
  register_handler-owned :
      (handler : Option ℕ) (n : Node)
      → (register_handler env handler n).owned_entities ≡ n.owned_entities
  unfolding register_handler register_endpoint
  register_handler-owned none n = refl
  register_handler-owned (some h) n = ground arith

  -- A runtime whose own entities fill its slots without a gap, of which `k` are left, takes over
  -- what the configuration added, if it fits, differs from what is owned, and has no number that
  -- stands for none: all of it is owned then, in order.
  pub register_endpoints-owned :
      (slots : List (Option OwnedEndpoint)) (entries : List EntityLocation) (k : ℕ) (n : Node)
      → n.owned_entities ≡ packed entries k
      → length (configured slots) ≤ k
      → AllOwnable slots
      → Distinct clash slots
      → AllApart entries slots
      → (register_endpoints env slots n).owned_entities
        ≡ packed (entries ++ configured slots) (k - length (configured slots))
  unfolding register_endpoints
  register_endpoints-owned [] entries k n e fits ownable distinct apart =
      e
      ∙ ap (λ l. packed l k) (sym (append-nil entries))
      ∙ ap (λ (j : ℕ). packed (entries ++ []) j) {x = k} {y = k - 0} (omega arith)
  register_endpoints-owned (none ∷ slots) entries k n e fits ownable distinct apart =
      register_endpoints-owned slots entries k n e fits ownable distinct apart
  register_endpoints-owned (some o ∷ slots) entries zero n e fits ownable distinct apart =
      absurd (omega arith)
  register_endpoints-owned (some o ∷ slots) entries (suc k) n e fits ownable distinct apart =
      let m = (register_owned_entity o.entity o.endpoint n).0 in
      let owned : m.owned_entities ≡ packed (entries ++ own_of o ∷ []) k =
        register_owned_entity-packed o entries slots k n e ownable.0 apart in
      let rest =
        register_endpoints-owned slots (entries ++ own_of o ∷ []) k
          (register_handler env o.handler m) (register_handler-owned o.handler m ∙ owned)
          (omega arith) ownable.1 distinct.1
          (All-append_one (λ e. IsApart e slots) entries (own_of o)
            (AllApart-tail o entries slots apart) (IsApart-of_clash o slots distinct.0)) in
      let left = length (configured slots) in
      rest
      ∙ ap (λ l. packed l (k - left)) (append_assoc entries (own_of o ∷ []) (configured slots))
      ∙ ap (λ (j : ℕ). packed (entries ++ own_of o ∷ configured slots) j) {x = k - left}
          {y = suc k - suc left} (omega arith)
