-- ===== src/Analytics/Dispatch/Gating.antt =====
-- Which providers a call reaches, and with what.
use event_spec.Prelude.{List, [], ◌∷◌, map, Option, none, some, String}
use mathlib.Core.List.{Perm}
use mathlib.Core.List.Perm
use event_spec.Hooks.{EventEnvelope}
use event_spec.Analytics.Dispatch.{
  Provider, Client, Call, Observed, noop_notice, before, sent, after, error, finally, Returned,
  result, hook_error, Gated, refused, admitted, collect_all_hooks, run_before, provider_result,
  aggregate, first_envelope, first_context,
}

-- The calls of providers among what was observed.
pub sends : List Observed → List (String × EventEnvelope)
sends [] = []
sends (sent name env ∷ calls) = (name, env) ∷ sends calls
sends (call ∷ calls) = sends calls

send_of : Observed → Option (String × EventEnvelope)
send_of (sent name env) = some (name, env)
send_of (noop_notice name) = none
send_of (before i) = none
send_of (after i name) = none
send_of (error i name) = none
send_of (finally i name) = none

module _ {E : Type 0} where
  abbrev pub addressed : EventEnvelope → Provider E → String × EventEnvelope
  addressed env p = (p.name, env)

  -- How the hooks answer a call that is not skipped.
  pub gate : Client E → Call → Gated E
  gate c call = (run_before (collect_all_hooks c) 0 (first_context call) (first_envelope call)).1

  -- What the providers are sent behind the gate.
  abbrev pub expected_sends : Client E → Gated E → List (String × EventEnvelope)
  expected_sends c (refused e) = []
  expected_sends c (admitted env) = map (addressed env) c.providers

  abbrev pub expected_return : Client E → Gated E → Returned E
  expected_return c (refused e) = hook_error e
  expected_return c (admitted env) = result (aggregate (map (provider_result env) c.providers))
