-- ===== src/Hooks/Validation/Gate.antt =====
-- Which events the validation hook lets through.
use event_spec.Prelude.{
  ◌≡◌, ◌≢◌, ◌↔◌, refl, ap, ◌∙◌, Bool, List, [], ◌∷◌, Option, none, some, String, Map, eq_iff, ◌==◌,
  Bool-cases, inl, inr,
}
use event_spec.Prelude.Values.{Value}
use event_spec.Spec.Status
use event_spec.Spec.Schema.{EventDef}
use event_spec.Hooks.{HookContext, pass}
use event_spec.Hooks.Validation.{
  extract_properties, refuse, validate_payload, check_event, validation_before,
}

module _ {V : Type 0} (payload_errors : EventDef → Map Value → List V) where
  -- The event has no spec, or one that is not deleted and whose schema finds no error in the
  -- properties, if there are any.
  abbrev pub IsAdmitted : Option EventDef → HookContext → Type 0
  IsAdmitted none hc = Unit
  IsAdmitted (some def) hc =
      (def.status ≢ Status.deleted)
      × ((props : Map Value)
          → extract_properties hc.message ≡ some props
          → payload_errors def props ≡ [])

  refuse-pass :
      (name : String) (errors : List V) → (refuse payload_errors name errors ≡ pass) ↔ (errors ≡ [])
  unfolding refuse
  refuse-pass name [] = (λ _. refl, λ _. refl)
  refuse-pass name (v ∷ vs) = (λ e. cc, λ e. cc)

  validate_payload-pass :
      (def : EventDef) (name : String) (o : Option (Map Value))
      → (validate_payload payload_errors def name o ≡ pass)
        ↔ ((props : Map Value) → o ≡ some props → payload_errors def props ≡ [])
  unfolding validate_payload
  validate_payload-pass def name none = (λ _ props e. cc, λ _. refl)
  validate_payload-pass def name (some m) =
      let accepted = refuse-pass name (payload_errors def m) in
      (
        λ e props same. ap (payload_errors def) (let eq : props ≡ m = cc in eq) ∙ accepted.0 e,
        λ h. accepted.1 (h m refl),
      )

  check_event-pass :
      (logs : Bool) (hc : HookContext) (o : Option EventDef)
      → ((check_event payload_errors logs hc o).0 ≡ pass) ↔ IsAdmitted o hc
  unfolding check_event
  check_event-pass logs hc none = (λ _. tt, λ _. refl)
  check_event-pass logs hc (some def) =
      let payload = validate_payload-pass def hc.event_name (extract_properties hc.message) in
      elim (Bool-cases (def.status == Status.deleted)) [
        | inl gone ↦
            rw gone (λ e. cc, λ h. absurd (h.0 ((eq_iff def.status Status.deleted).0 gone)))
        | inr there ↦ rw there (
          λ e. (λ same. cc (there, (eq_iff def.status Status.deleted).1 same), payload.0 e),
          λ h. payload.1 h.1,
        )
      ]

  -- Before lets an event through exactly when it has no spec, or a spec that is not deleted and
  -- whose schema finds no error in the properties, if there are any; an event with schema
  -- errors is stopped whether its spec is a draft, active or deprecated.
  pub validation_before-IsAdmitted :
      (lookup : String → Option EventDef) (logs : Bool) (hc : HookContext)
      → ((validation_before payload_errors lookup logs hc).0 ≡ pass)
        ↔ IsAdmitted (lookup hc.event_name) hc
  unfolding validation_before
  validation_before-IsAdmitted lookup logs hc = check_event-pass logs hc (lookup hc.event_name)
