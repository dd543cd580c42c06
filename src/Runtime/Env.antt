-- ===== src/Runtime/Env.antt =====
-- What the runtime calls: `IFrameTransmitter`, `IAddressStorage`, `INodeEvents` and the listeners.
-- Everything behind these interfaces is one value of a type `W`, the world. Pointers to handlers
-- and listeners are numbers. A handler or listener may publish on the runtime that calls it, as
-- the switch and the light do; it ignores the results, so its reaction lists what it publishes.
use esphome_hacan.Base.{ℕ, Bool, Option, List, if◌then◌else◌}
use esphome_hacan.Types.{Status}
use esphome_hacan.TypedValue.{TypedValue}
use esphome_hacan.FrameCodec.{RawCanFrame}

-- A call of `publish_state` or `publish_event`: the endpoint, the value, and quality or flags.
pub data Publication : Type 0 where
  state : ℕ → TypedValue → ℕ → Publication
  event : ℕ → TypedValue → ℕ → Publication

pub record Reaction (W : Type 0) : Type 0 where
  pub world : W
  pub publications : List Publication

pub record Env (W : Type 0) : Type 0 where
  pub transmit : RawCanFrame → W → W × Bool
  pub load : W → W × Option ℕ
  pub save : ℕ → W → W × Bool
  -- Whether the `events` pointer of the constructor is set.
  pub has_events : Bool
  pub on_entity_available : ℕ → ℕ → ℕ → W → W
  pub on_entity_unavailable : ℕ → W → W
  pub on_address_conflict : ℕ → W → W
  -- `IEndpointHandler`
  pub endpoint : ℕ → ℕ
  pub command : ℕ → TypedValue → W → Status × Reaction W
  -- `IStateListener` and `IEventListener`
  pub state_entity : ℕ → ℕ
  pub state : ℕ → TypedValue → ℕ → W → Reaction W
  pub event_entity : ℕ → ℕ
  pub event : ℕ → TypedValue → ℕ → W → Reaction W

module _ {W : Type 0} (env : Env W) where
  -- `if (events_) events_->…`
  unfoldable pub entity_available : ℕ → ℕ → ℕ → W → W
  entity_available entity node endpoint w =
      if env.has_events then env.on_entity_available entity node endpoint w else w

  unfoldable pub entity_unavailable : ℕ → W → W
  entity_unavailable entity w = if env.has_events then env.on_entity_unavailable entity w else w

  unfoldable pub address_conflict : ℕ → W → W
  address_conflict address w = if env.has_events then env.on_address_conflict address w else w
