-- ===== src/Hooks.antt =====
-- The middleware of the event pipeline (hooks/hook.go). A hook is what its Before answers; what it
-- does beside that is its own, so the pipeline is observed through the order of its calls.
pub mod Chain
pub mod Sampling
pub mod Validation
use event_spec.Prelude.{Option, String, Map}
use event_spec.Prelude.Values.{Value}

-- type AnalyticsContext; a nil map is an empty one, which reads alike
pub record AnalyticsContext : Type 0 where
  pub user_id : String
  pub anonymous_id : String
  pub attributes : Map Value

-- type EventEnvelope. `properties` is `none` where the map is nil.
pub record EventEnvelope : Type 0 where
  pub event_name : String
  pub properties : Option (Map Value)
  pub context : AnalyticsContext
  pub metadata : Map Value

-- What HookContext.Message holds: an envelope, a map, or something else.
pub data Message : Type 0 where
  nothing : Message
  envelope : EventEnvelope → Message
  properties_map : Map Value → Message
  other : Message

-- type HookContext
pub record HookContext : Type 0 where
  pub operation : String
  pub event_name : String
  pub context : AnalyticsContext
  pub message : Message
  pub provider : String

-- What Before returns: an error, `nil, nil`, or a new envelope.
pub data Answer (E : Type 0) : Type 0 where
  cancel : E → Answer E
  pass : Answer E
  replace : EventEnvelope → Answer E

-- type Hook
abbrev pub Hook : Type 0 → Type 0
Hook E = HookContext → Answer E
