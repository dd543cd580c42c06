-- ===== src/CanIdentifier/RoundTrip.antt =====
-- The identifier as a number and as its five fields.
use esphome_hacan.Base.{
  ◌↔◌, ℕ, zero, suc, ◌+◌, ◌*◌, ◌/◌, ◌%◌, ◌^◌, ◌≤◌, ◌<◌, ◌≡◌, refl, ap, subst, ◌∙◌, some, arith,
  or_fields, and_mask,
}
use esphome_hacan.Types.{Priority, priority_code, priority_of_code}
use esphome_hacan.CanIdentifier.{CanIdentifier, create, from_raw, to_raw, identifier_mask}

-- Each field fits its bits.
pub record IsInRange (id : CanIdentifier) : Type 0 where
  pub kind_fits : id.kind < 32
  pub destination_fits : id.destination < 512
  pub source_fits : id.source < 512
  pub hop_fits : id.hop < 8

pub priority_code-lt : (p : Priority) → priority_code p < 8
priority_code-lt Priority.emergency = omega arith
priority_code-lt _ = omega arith

pub priority_of_code-priority_code : (p : Priority) → priority_of_code (priority_code p) ≡ p
priority_of_code-priority_code Priority.emergency = refl
priority_of_code-priority_code _ = refl

pub priority_code-priority_of_code : (n : ℕ) → n < 8 → priority_code (priority_of_code n) ≡ n
priority_code-priority_of_code zero h = refl
priority_code-priority_of_code (suc zero) h = refl
priority_code-priority_of_code (suc (suc zero)) h = refl
priority_code-priority_of_code (suc (suc (suc zero))) h = refl
priority_code-priority_of_code (suc (suc (suc (suc zero)))) h = refl
priority_code-priority_of_code (suc (suc (suc (suc (suc zero))))) h = refl
priority_code-priority_of_code (suc (suc (suc (suc (suc (suc zero)))))) h = refl
priority_code-priority_of_code (suc (suc (suc (suc (suc (suc (suc n))))))) h = omega arith

-- The disjunction of the shifted fields is a sum.
abbrev packed : CanIdentifier → ℕ
packed id =
    priority_code id.priority * 2 ^ 26
    + id.kind * 2 ^ 21
    + id.destination * 2 ^ 12
    + id.source * 2 ^ 3
    + id.hop

pub to_raw_as_sum : (id : CanIdentifier) → IsInRange id → to_raw id ≡ packed id
unfolding to_raw
to_raw_as_sum id h = ground (
  arith,
  priority_code-lt id.priority,
  or_fields 26 (priority_code id.priority) (id.kind * 2 ^ 21),
  or_fields 21 (priority_code id.priority * 32 + id.kind) (id.destination * 2 ^ 12),
  or_fields 12 ((priority_code id.priority * 32 + id.kind) * 512 + id.destination)
      (id.source * 2 ^ 3),
  or_fields 3
      (((priority_code id.priority * 32 + id.kind) * 512 + id.destination) * 512 + id.source)
      id.hop,
)

-- The raw identifier has 29 bits.
pub to_raw-le-identifier_mask : (id : CanIdentifier) → IsInRange id → to_raw id ≤ identifier_mask
to_raw-le-identifier_mask id h = omega (arith, to_raw_as_sum id h, priority_code-lt id.priority)

-- The fields that `from_raw` reads, as quotients and remainders.
abbrev unpacked : ℕ → CanIdentifier
unpacked raw = record {
  priority = priority_of_code (raw / 2 ^ 26 % 8);
  kind = raw / 2 ^ 21 % 32;
  destination = raw / 2 ^ 12 % 512;
  source = raw / 2 ^ 3 % 512;
  hop = raw % 8;
}

from_raw_fields : (raw : ℕ) → raw ≤ identifier_mask → from_raw raw ≡ some (unpacked raw)
unfolding from_raw
from_raw_fields raw h = ground (
  arith,
  and_mask 3 (raw / 2 ^ 26),
  and_mask 5 (raw / 2 ^ 21),
  and_mask 9 (raw / 2 ^ 12),
  and_mask 9 (raw / 2 ^ 3),
  and_mask 3 raw,
)

from_raw_fits : (raw : ℕ) {id : CanIdentifier} → from_raw raw ≡ some id → raw ≤ identifier_mask
unfolding from_raw
from_raw_fits raw e = ground arith

from_raw_inv : (raw : ℕ) {id : CanIdentifier} → from_raw raw ≡ some id → unpacked raw ≡ id
from_raw_inv raw e = cc (from_raw_fields raw (from_raw_fits raw e))

-- What `from_raw` reads is in range.
pub from_raw-IsInRange : (raw : ℕ) {id : CanIdentifier} → from_raw raw ≡ some id → IsInRange id
from_raw-IsInRange raw e = subst IsInRange (from_raw_inv raw e) (omega arith)

-- `create` succeeds exactly on fields that fit, given that the kind has five bits, and the
-- identifier has the fields it was given.
pub create-IsInRange :
    (p : Priority) (kind d s hop : ℕ) {id : CanIdentifier}
    → kind < 32
    → create p kind d s hop ≡ some id
    → IsInRange id
unfolding create
create-IsInRange p kind d s hop h e = ground arith

packed_priority :
    (id : CanIdentifier) → IsInRange id → packed id / 2 ^ 26 % 8 ≡ priority_code id.priority
packed_priority id h = omega (arith, priority_code-lt id.priority)

-- An identifier in range is read back from its raw form.
pub from_raw-to_raw : (id : CanIdentifier) → IsInRange id → from_raw (to_raw id) ≡ some id
from_raw-to_raw id h =
    from_raw_fields (to_raw id) (to_raw-le-identifier_mask id h)
    ∙ ap some (
        rw (to_raw_as_sum id h) (
          ground (
            arith,
            ap priority_of_code (packed_priority id h),
            priority_of_code-priority_code id.priority,
            packed_priority id h,
            priority_code-lt id.priority,
          )))

unpacked-IsInRange : (raw : ℕ) → IsInRange (unpacked raw)
unpacked-IsInRange raw = omega arith

to_raw-unpacked : (raw : ℕ) → raw ≤ identifier_mask → to_raw (unpacked raw) ≡ raw
to_raw-unpacked raw h = omega (
  arith,
  to_raw_as_sum (unpacked raw) (unpacked-IsInRange raw),
  priority_code-priority_of_code (raw / 2 ^ 26 % 8) (omega arith),
)

-- A raw identifier that `from_raw` accepts is written back as the same number.
pub to_raw-from_raw : (raw : ℕ) {id : CanIdentifier} → from_raw raw ≡ some id → to_raw id ≡ raw
to_raw-from_raw raw e =
    subst (λ j. to_raw j ≡ raw) (from_raw_inv raw e) (to_raw-unpacked raw (from_raw_fits raw e))

-- `from_raw` reads an identifier from a raw value exactly if the identifier's fields fit their bits
-- and the value is its raw form.
pub from_raw_iff :
    (raw : ℕ) (id : CanIdentifier) → (from_raw raw ≡ some id) ↔ (IsInRange id × (to_raw id ≡ raw))
from_raw_iff raw id = (
  λ e. (from_raw-IsInRange raw e, to_raw-from_raw raw e),
  λ h. subst (λ r. from_raw r ≡ some id) h.1 (from_raw-to_raw id h.0),
)

-- On the bus the lower identifier wins the arbitration: a frame of a more urgent priority has the
-- lower raw identifier, whatever its other fields are.
pub to_raw_priority_lt :
    (a b : CanIdentifier)
    → IsInRange a
    → IsInRange b
    → priority_code a.priority < priority_code b.priority
    → to_raw a < to_raw b
to_raw_priority_lt a b ha hb h = omega (arith, to_raw_as_sum a ha, to_raw_as_sum b hb)
