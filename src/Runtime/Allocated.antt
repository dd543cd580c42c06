-- ===== src/Runtime/Allocated.antt =====
-- An address that is marked as allocated stays so.
pub mod Handling
pub mod Ticking
pub mod Offers
use esphome_hacan.Base.{ℕ, ◌≡◌, ap, ◌∙◌, Bool, true, Bytes8}
use esphome_hacan.Types.{Priority, MessageKind}
use esphome_hacan.Runtime.Node.{Node}
use esphome_hacan.Runtime.Settled.{settled}

abbrev pub Taken : ℕ → Node → Type 0
Taken j n = n.allocated j ≡ true

allocated-of_settled : (m n : Node) → settled m ≡ settled n → m.allocated ≡ n.allocated
unfolding settled
allocated-of_settled m n e = ap (λ (k : Node). k.allocated) e

-- What only sends does not change that.
pub Taken-of_settled : {j : ℕ} (m n : Node) → settled m ≡ settled n → Taken j n → Taken j m
Taken-of_settled {j} m n e taken = ap (λ (f : ℕ → Bool). f j) (allocated-of_settled m n e) ∙ taken
