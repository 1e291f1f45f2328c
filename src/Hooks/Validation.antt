-- ===== src/Hooks/Validation.antt =====
-- The validation hook (hooks/validation/hook.go). The check of a payload against its JSON Schema is
-- a third-party validator's, and an argument.
pub mod Gate
use event_spec.Prelude.{
  ℕ, ◌≡◌, ◌≢◌, refl, Bool, true, false, ◌&&◌, List, [], ◌∷◌, Option, none, some, String, Map, arith,
  eq_iff, if◌then◌else◌, ◌==◌,
}
use event_spec.Prelude.Values.{Value}
use event_spec.Spec.Status
use event_spec.Spec.Schema.{EventDef}
use event_spec.Hooks.{
  EventEnvelope, HookContext, Answer, cancel, pass, Message, nothing, envelope, properties_map,
  other,
}

-- ErrDeletedEvent and *ValidationError
pub data Refusal (V : Type 0) : Type 0 where
  deleted_event : String → Refusal V
  invalid_payload : String → List V → Refusal V

-- func extractProperties
unfoldable pub extract_properties : Message → Option (Map Value)
extract_properties nothing = none
extract_properties (envelope e) = e.properties
extract_properties (properties_map m) = some m
extract_properties other = none

module _ {V : Type 0} (payload_errors : EventDef → Map Value → List V) where
  unfoldable pub refuse : String → List V → Answer (Refusal V)
  refuse name [] = pass
  refuse name (v ∷ vs) = cancel (invalid_payload name (v ∷ vs))

  unfoldable pub validate_payload : EventDef → String → Option (Map Value) → Answer (Refusal V)
  validate_payload def name none = pass
  validate_payload def name (some props) = refuse name (payload_errors def props)

  unfoldable pub check_event :
      Bool → HookContext → Option EventDef → Answer (Refusal V) × List String
  check_event logs hc none = (pass, [])
  check_event logs hc (some def) =
      if def.status == Status.deleted then (cancel (deleted_event hc.event_name), []) else (
        validate_payload def hc.event_name (extract_properties hc.message),
        if def.status == Status.deprecated && logs then hc.event_name ∷ [] else [],
      )

  -- func (h *Hook) Before: the answer, and the events that it warns of. `logs` is whether there is
  -- a logger.
  unfoldable pub validation_before :
      (String → Option EventDef) → Bool → HookContext → Answer (Refusal V) × List String
  validation_before lookup logs hc = check_event logs hc (lookup hc.event_name)
