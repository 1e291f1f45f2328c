-- ===== src/Analytics/Dispatch.antt =====
-- The event pipeline, dispatchAll of analytics/client.go. A provider is a name, its hooks, and how it
-- answers a call; the message identifier, the clock and the latency are left out. The providers are
-- called concurrently: a schedule says which of their goroutines makes the next of its calls, so that
-- every interleaving has a schedule. Each writes its own place of the results.
pub mod Schedule
pub mod Gating
pub mod Delivery
use event_spec.Prelude.{
  ℕ, zero, suc, Bool, true, false, not, ◌&&◌, ◌||◌, List, [], ◌∷◌, ◌++◌, map, reverse, Option, none,
  some, String, Map, ◌<◌, ltb, length, if◌then◌else◌, ◌==◌,
}
use event_spec.Prelude.Values.{Value}
use event_spec.Hooks.{
  AnalyticsContext, EventEnvelope, HookContext, Answer, cancel, pass, replace, Hook, Message,
  envelope,
}
use event_spec.Analytics.Context.{Sources, merge_context_chain}

-- type Provider, for one of its calls. `none` is no error.
pub record Provider (E : Type 0) : Type 0 where
  pub name : String
  pub hooks : List (Hook E)
  pub send : EventEnvelope → Option E
  pub notices_noop : Bool

-- type Client, with the global hooks and context beside it
pub record Client (E : Type 0) : Type 0 where
  pub providers : List (Provider E)
  pub global_hooks : List (Hook E)
  pub client_hooks : List (Hook E)
  pub allow_draft : Bool

-- type trackOptions, type Event and the contexts of the call
pub record Call : Type 0 where
  pub operation : String
  pub event_name : String
  pub event_status : String
  pub properties : Option (Map Value)
  pub noop : Bool
  pub sources : Sources

pub data DeliveryState : Type 0 where
  accepted delivered failed dropped : DeliveryState

-- type ProviderResult
pub record ProviderResult (E : Type 0) : Type 0 where
  pub provider_name : String
  pub state : DeliveryState
  pub error : Option E

-- type DispatchResult
pub record DispatchResult (E : Type 0) : Type 0 where
  pub success : List (ProviderResult E)
  pub failures : List (ProviderResult E)
  pub partial_success : Bool

-- What can be seen of a dispatch. A hook is named by its position in the list of all hooks.
pub data Observed : Type 0 where
  noop_notice : String → Observed
  before : ℕ → Observed
  sent : String → EventEnvelope → Observed
  after : ℕ → String → Observed
  error : ℕ → String → Observed
  finally : ℕ → String → Observed

pub data Returned (E : Type 0) : Type 0 where
  result : DispatchResult E → Returned E
  hook_error : E → Returned E

abbrev pub show_envelope : HookContext → EventEnvelope → HookContext
show_envelope hc e = record hc {
  event_name = e.event_name;
  context = e.context;
  message = envelope e;
}

abbrev pub first_envelope : Call → EventEnvelope
first_envelope call = record {
  event_name = call.event_name;
  properties = call.properties;
  context = merge_context_chain call.sources;
  metadata = [];
}

abbrev pub first_context : Call → HookContext
first_context call = record {
  operation = call.operation;
  event_name = call.event_name;
  context = merge_context_chain call.sources;
  message = envelope (first_envelope call);
  provider = "";
}

-- How the Before calls end: with an error, or with the envelope for the providers.
pub data Gated (E : Type 0) : Type 0 where
  refused : E → Gated E
  admitted : EventEnvelope → Gated E

-- The next call of the goroutine at a position, and what the goroutines have left.
abbrev behind_goroutine :
    List Observed
    → Option (Observed × List (List Observed))
    → Option (Observed × List (List Observed))
behind_goroutine calls none = none
behind_goroutine calls (some (x, rest)) = some (x, calls ∷ rest)

unfoldable pub take_from : ℕ → List (List Observed) → Option (Observed × List (List Observed))
take_from n [] = none
take_from zero ([] ∷ rest) = none
take_from zero ((x ∷ calls) ∷ rest) = some (x, calls ∷ rest)
take_from (suc n) (calls ∷ rest) = behind_goroutine calls (take_from n rest)

unfoldable pub in_turn : List (List Observed) → List Observed
in_turn [] = []
in_turn (calls ∷ rest) = calls ++ in_turn rest

-- The call that was taken, if there is one, and then the later ones.
unfoldable pub next_call :
    Option (Observed × List (List Observed))
    → List (List Observed)
    → (List (List Observed) → List Observed)
    → List Observed
next_call none goroutines later = later goroutines
next_call (some (x, rest)) goroutines later = x ∷ later rest

-- The goroutines by a schedule, which passes over those that have ended; when it is used up, the
-- others end one after the other.
unfoldable pub interleave : List ℕ → List (List Observed) → List Observed
interleave [] goroutines = in_turn goroutines
interleave (n ∷ schedule) goroutines =
    next_call (take_from n goroutines) goroutines (interleave schedule)

module _ {E : Type 0} where
  abbrev pub empty_result : DispatchResult E
  empty_result = record { success = []; failures = []; partial_success = false }

  unfoldable pub provider_hooks : List (Provider E) → List (Hook E)
  provider_hooks [] = []
  provider_hooks (p ∷ ps) = p.hooks ++ provider_hooks ps

  -- func (c *Client) collectAllHooks
  unfoldable pub collect_all_hooks : Client E → List (Hook E)
  collect_all_hooks c = c.global_hooks ++ (c.client_hooks ++ provider_hooks c.providers)

  -- func (c *Client) notifyNoopProviders
  unfoldable pub notify_noop_providers : List (Provider E) → List Observed
  notify_noop_providers [] = []
  notify_noop_providers (p ∷ ps) =
      let rest = notify_noop_providers ps in
      if p.notices_noop then noop_notice p.name ∷ rest else rest

  abbrev pub behind : Observed → List Observed × Gated E → List Observed × Gated E
  behind call (calls, gated) = (call ∷ calls, gated)

  -- One Before, with the rest of the loop.
  unfoldable pub next_before :
      ℕ
      → HookContext
      → EventEnvelope
      → Answer E
      → (HookContext → EventEnvelope → List Observed × Gated E)
      → List Observed × Gated E
  next_before i hc env (cancel e) rest = (before i ∷ [], refused e)
  next_before i hc env pass rest = behind (before i) (rest hc env)
  next_before i hc env (replace e) rest = behind (before i) (rest (show_envelope hc e) e)

  unfoldable pub run_before :
      List (Hook E) → ℕ → HookContext → EventEnvelope → List Observed × Gated E
  run_before [] i hc env = ([], admitted env)
  run_before (h ∷ hooks) i hc env = next_before i hc env (h hc) (run_before hooks (suc i))

  -- `for j := len(allHooks) - 1; j >= 0; j--`
  unfoldable pub indices : ℕ → List (Hook E) → List ℕ
  indices i [] = []
  indices i (h ∷ hooks) = i ∷ indices (suc i) hooks

  unfoldable pub backwards : (ℕ → Observed) → List (Hook E) → List Observed
  backwards f hooks = map f (reverse (indices 0 hooks))

  abbrev pub state_of : Option E → DeliveryState
  state_of none = delivered
  state_of (some e) = failed

  unfoldable pub outcome_calls : Option E → String → List (Hook E) → List Observed
  outcome_calls none name hooks = backwards (λ i. after i name) hooks
  outcome_calls (some e) name hooks = backwards (λ i. error i name) hooks

  -- the goroutine of one provider
  unfoldable pub provider_calls : List (Hook E) → EventEnvelope → Provider E → List Observed
  provider_calls hooks env p =
      sent p.name env
      ∷ (outcome_calls (p.send env) p.name hooks ++ backwards (λ i. finally i p.name) hooks)

  unfoldable pub provider_result : EventEnvelope → Provider E → ProviderResult E
  provider_result env p = record {
    provider_name = p.name;
    state = state_of (p.send env);
    error = p.send env;
  }

  -- the calls of all the goroutines, in the order that a schedule gives them
  unfoldable pub all_calls :
      List ℕ → List (Hook E) → EventEnvelope → List (Provider E) → List Observed
  all_calls schedule hooks env ps = interleave schedule (map (provider_calls hooks env) ps)

  unfoldable pub successes : List (ProviderResult E) → List (ProviderResult E)
  successes [] = []
  successes (r ∷ rs) = let rest = successes rs in elim r.error [ none ↦ r ∷ rest | some e ↦ rest ]

  unfoldable pub failures_of : List (ProviderResult E) → List (ProviderResult E)
  failures_of [] = []
  failures_of (r ∷ rs) =
      let rest = failures_of rs in elim r.error [ none ↦ rest | some e ↦ r ∷ rest ]

  unfoldable pub aggregate : List (ProviderResult E) → DispatchResult E
  aggregate results = record {
    success = successes results;
    failures = failures_of results;
    partial_success = ltb 0 (length (successes results));
  }

  unfoldable pub deliver : List ℕ → Client E → List Observed → Gated E → List Observed × Returned E
  deliver schedule c calls (refused e) = (calls, hook_error e)
  deliver schedule c calls (admitted env) = (
    calls ++ all_calls schedule (collect_all_hooks c) env c.providers,
    result (aggregate (map (provider_result env) c.providers)),
  )

  -- The test at the top of dispatchAll: such a call reaches no hook and no provider.
  unfoldable pub is_skipped : Client E → Call → Bool
  is_skipped c call =
      let is_draft = call.event_status == "draft" in
      (call.noop || is_draft) && (not is_draft || not c.allow_draft)

  -- func (c *Client) dispatchAll
  unfoldable pub dispatch_all : List ℕ → Client E → Call → List Observed × Returned E
  dispatch_all schedule c call =
      if is_skipped c call
      then (notify_noop_providers c.providers, result empty_result)
      else (let (calls, gated) =
            run_before (collect_all_hooks c) 0 (first_context call) (first_envelope call) in
          deliver schedule c calls gated)
