-- ===== src/Analytics/Dispatch/Delivery.antt =====
-- What a dispatch reports of the providers.
use event_spec.Prelude.{
  ◌+◌, true, ◌≡◌, ◌≢◌, ◌↔◌, refl, ap, List, [], ◌∷◌, map, Option, none, some, String, arith, length,
  Option-cases, inl, inr, ltb,
}
use mathlib.Core.Path.{ap₂}
use event_spec.Hooks.{EventEnvelope}
use event_spec.Analytics.Dispatch.{
  Provider, ProviderResult, delivered, failed, state_of, provider_result, successes, failures_of,
  aggregate,
}

positive-ne-nil : {A : Type 0} (xs : List A) → (ltb 0 (length xs) ≡ true) ↔ (xs ≢ [])
positive-ne-nil [] = (λ e. cc, λ h. absurd (h refl))
positive-ne-nil (x ∷ xs) = (λ e h. cc, λ h. ground arith)

module _ {E : Type 0} where
  -- The providers that answer without an error, and those that answer with one.
  unfoldable pub succeeding : EventEnvelope → List (Provider E) → List String
  succeeding env [] = []
  succeeding env (p ∷ ps) =
      let rest = succeeding env ps in elim (p.send env) [ none ↦ p.name ∷ rest | some e ↦ rest ]

  unfoldable pub failing : EventEnvelope → List (Provider E) → List (String × E)
  failing env [] = []
  failing env (p ∷ ps) =
      let rest = failing env ps in elim (p.send env) [ none ↦ rest | some e ↦ (p.name, e) ∷ rest ]

  abbrev pub success_report : String → ProviderResult E
  success_report name = record { provider_name = name; state = delivered; error = none }

  abbrev pub failure_report : String × E → ProviderResult E
  failure_report (name, e) = record { provider_name = name; state = failed; error = some e }

  provider_result-split :
      (env : EventEnvelope) (ps : List (Provider E))
      → let rs = map (provider_result env) ps in
        (successes rs ≡ map success_report (succeeding env ps))
        × (failures_of rs ≡ map failure_report (failing env ps))
        × (length (successes rs) + length (failures_of rs) ≡ length ps)
  unfolding provider_result successes failures_of succeeding failing
  provider_result-split env [] = (refl, refl, refl)
  provider_result-split env (p ∷ ps) =
      let (ok, bad, count) = provider_result-split env ps in
      let report : Option E → ProviderResult E =
        λ o. record { provider_name = p.name; state = state_of o; error = o } in
      elim (Option-cases (p.send env)) [
        | inl fine ↦ rw fine (ap₂ (λ r rs. r ∷ rs) (ap report fine) ok, bad, omega (arith, count))
        | inr (e, fault) ↦
            rw fault (ok, ap₂ (λ r rs. r ∷ rs) (ap report fault) bad, omega (arith, count))
      ]

  -- The successes are, in the order of the providers, those that answer the envelope without an error,
  -- each with its name, as delivered and without an error; the failures are the others, each with its
  -- name, as failed and with the error that it answered; together they are as many as the providers;
  -- and there is a partial success exactly when some provider succeeded.
  pub aggregate-split :
      (env : EventEnvelope) (ps : List (Provider E))
      → let r = aggregate (map (provider_result env) ps) in
        (r.success ≡ map success_report (succeeding env ps))
        × (r.failures ≡ map failure_report (failing env ps))
        × (length r.success + length r.failures ≡ length ps)
        × ((r.partial_success ≡ true) ↔ (r.success ≢ []))
  unfolding aggregate
  aggregate-split env ps =
      let (ok, bad, count) = provider_result-split env ps in
      (ok, bad, count, positive-ne-nil (successes (map (provider_result env) ps)))
