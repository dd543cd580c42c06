-- ===== src/Runtime/Node.antt =====
-- The state of `NodeRuntime`.
use esphome_hacan.Base.{
  ℕ, Bool, true, false, Option, none, some, List, ◌==◌, if◌then◌else◌, replicate,
}
use esphome_hacan.Types.{Status}
use esphome_hacan.Runtime.Env.{Env}
use esphome_hacan.Runtime.Uid.{Uid}
use esphome_hacan.Runtime.Queue.{FrameQueue, empty}

pub data CommissioningRole : Type 0 where
  primary secondary no_role : CommissioningRole

pub record EntityLocation : Type 0 where
  pub entity : ℕ
  pub node : ℕ
  pub endpoint : ℕ

pub record Duplicate : Type 0 where
  pub source : ℕ
  pub endpoint : ℕ
  pub transaction : ℕ
  pub kind : ℕ
  pub seen_ms : ℕ
  pub status : Status

pub record PendingDiscoveryResponse : Type 0 where
  pub transaction : ℕ
  pub requester : ℕ
  pub due_ms : ℕ

-- The arrays with an entry for each address are functions of the address.
pub record Node : Type 0 where
  pub uid : Uid
  pub role : CommissioningRole
  pub address : Option ℕ
  pub allocated : ℕ → Bool
  pub last_seen : ℕ → ℕ
  pub seen : ℕ → Bool
  pub entities : List (Option EntityLocation)
  pub owned_entities : List (Option EntityLocation)
  pub observed_entities : List (Option ℕ)
  pub endpoint_handlers : List (Option ℕ)
  pub state_listeners : List (Option ℕ)
  pub event_listeners : List (Option ℕ)
  pub control_queue : FrameQueue
  pub event_queue : FrameQueue
  pub state_queue : FrameQueue
  pub management_queue : FrameQueue
  pub diagnostic_queue : FrameQueue
  pub duplicates : List (Option Duplicate)
  pub pending_discovery_response : Option PendingDiscoveryResponse
  pub next_heartbeat_ms : ℕ
  pub next_claim_ms : ℕ
  pub next_discovery_ms : ℕ
  pub discovery_attempt : ℕ
  pub claims_sent : ℕ
  pub claim_schedule_initialized : Bool
  pub owned_claim_index : ℕ
  pub observed_resolve_index : ℕ
  pub sequence : ℕ

-- The node and everything behind its interfaces.
pub record Sys (W : Type 0) : Type 0 where
  pub node : Node
  pub world : W

-- A write to an array with an entry for each address.
abbrev pub store {ℓ} : {A : Type ℓ} → ℕ → A → (ℕ → A) → ℕ → A
store i a f j = if j == i then a else f j

-- The members' initialisers, with an address.
unfoldable pub fresh : Uid → CommissioningRole → Option ℕ → Node
fresh uid role address = record {
  uid = uid;
  role = role;
  address = address;
  allocated = λ _. false;
  last_seen = λ _. 0;
  seen = λ _. false;
  entities = replicate 32 none;
  owned_entities = replicate 16 none;
  observed_entities = replicate 16 none;
  endpoint_handlers = replicate 16 none;
  state_listeners = replicate 16 none;
  event_listeners = replicate 16 none;
  control_queue = empty;
  event_queue = empty;
  state_queue = empty;
  management_queue = empty;
  diagnostic_queue = empty;
  duplicates = replicate 16 none;
  pending_discovery_response = none;
  next_heartbeat_ms = 0;
  next_claim_ms = 0;
  next_discovery_ms = 0;
  discovery_attempt = 0;
  claims_sent = 0;
  claim_schedule_initialized = false;
  owned_claim_index = 0;
  observed_resolve_index = 0;
  sequence = 0;
}

abbrev pub bootstrap_address : ℕ
bootstrap_address = 0x001

-- `if (address_) allocated_[address_->value()] = true;`
unfoldable pub mark_own : Node → Node
mark_own n = elim n.address [
  | none ↦ n
  | some address ↦ record n { allocated = store address true n.allocated }
]

module _ {W : Type 0} (env : Env W) where
  -- A primary without a stored address takes the first one, if that can be saved.
  unfoldable pub bootstrap : CommissioningRole → Option ℕ → W → W × Option ℕ
  bootstrap CommissioningRole.primary none w =
      let (w', saved) = env.save bootstrap_address w in
      (w', if saved then some bootstrap_address else none)
  bootstrap role address w = (w, address)

  -- The constructor.
  unfoldable pub start : Uid → CommissioningRole → W → Sys W
  start uid role w =
      let (w', loaded) = env.load w in
      let (w'', address) = bootstrap role loaded w' in
      record { node = mark_own (fresh uid role address); world = w'' }
