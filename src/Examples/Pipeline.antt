-- ===== src/Examples/Pipeline.antt =====
-- The hooks, the contexts and the dispatch of events.
use event_spec.Prelude.{
  IsMap, ◌≡◌, ◌↔◌, ◌+◌, ◌≢◌, refl, none, some, List, [], ◌∷◌, map, String, Map, Option, true, false,
  length, lookup, if◌then◌else◌, ◌==◌, has_key,
}
use event_spec.Prelude.Values.{Value, string}
use event_spec.Spec.Schema.{EventDef}
use event_spec.Hooks.{
  AnalyticsContext, EventEnvelope, HookContext, cancel, pass, Hook, properties_map,
}
use event_spec.Hooks.Validation.{validation_before}
use event_spec.Hooks.Validation.Gate.{IsAdmitted, validation_before-IsAdmitted}
use event_spec.Analytics.Context.{Sources, merge_context_chain}
use event_spec.Analytics.Context.Precedence.{
  AreMaps, first_text, first_attribute, levels, merge_context_chain-first,
}
use event_spec.Analytics.Dispatch.{Provider, Client, Call, provider_result, aggregate}
use event_spec.Analytics.Dispatch.Delivery.{
  succeeding, failing, success_report, failure_report, aggregate-split,
}
use event_spec.Analytics.Message.{build_message_context}
use event_spec.Analytics.Message.Extra.{left_over, build_message_context-extra}
use event_spec.Examples.Diffs.{v1}

abbrev context_of : String → Map Value → AnalyticsContext
context_of user attributes = record { user_id = user; anonymous_id = ""; attributes = attributes }

-- The call names a user, and the client an attribute that the global context has too.
abbrev sources : Sources
sources = record {
  global = context_of "nobody" (("plan", string "free") ∷ []);
  request = none;
  transaction = some (context_of "" (("region", string "eu") ∷ []));
  client = context_of "" (("plan", string "paid") ∷ []);
  invocation = some (context_of "ann" []);
}

sources_maps : AreMaps sources
unfolding has_key
sources_maps = record {
  global_map = (refl, tt);
  request_map = tt;
  transaction_map = (refl, tt);
  client_map = (refl, tt);
  invocation_map = tt;
}

merge_context_chain-first_example :
    ((merge_context_chain sources).user_id ≡ first_text (λ c. c.user_id) (levels sources))
    × ((merge_context_chain sources).anonymous_id
        ≡ first_text (λ c. c.anonymous_id) (levels sources))
    × ((k : String)
        → lookup k (merge_context_chain sources).attributes ≡ first_attribute k (levels sources))
merge_context_chain-first_example = merge_context_chain-first sources sources_maps

abbrev working : Provider String
working = record { name = "amplitude"; hooks = []; send = λ e. none; notices_noop = false }

abbrev broken : Provider String
broken = record {
  name = "segment";
  hooks = [];
  send = λ e. some "unreachable";
  notices_noop = true;
}

-- A hook that cancels the events of nobody.
abbrev known_users : Hook String
known_users hc = if hc.context.user_id == "" then cancel "no user" else pass

abbrev client : Client String
client = record {
  providers = working ∷ broken ∷ [];
  global_hooks = known_users ∷ [];
  client_hooks = [];
  allow_draft = false;
}

abbrev call : Call
call = record {
  operation = "track";
  event_name = "Order Placed";
  event_status = "active";
  properties = none;
  noop = false;
  sources = sources;
}

abbrev sent_envelope : EventEnvelope
sent_envelope = record {
  event_name = "Order Placed";
  properties = none;
  context = context_of "ann" [];
  metadata = [];
}

aggregate-split_example :
    let r = aggregate (map (provider_result sent_envelope) (working ∷ broken ∷ [])) in
    (r.success ≡ map success_report (succeeding sent_envelope (working ∷ broken ∷ [])))
    × (r.failures ≡ map failure_report (failing sent_envelope (working ∷ broken ∷ [])))
    × (length r.success + length r.failures ≡ 2)
    × ((r.partial_success ≡ true) ↔ (r.success ≢ []))
aggregate-split_example = aggregate-split sent_envelope (working ∷ broken ∷ [])

abbrev order_context : HookContext
order_context = record {
  operation = "track";
  event_name = "order_placed";
  context = context_of "ann" [];
  message = properties_map [];
  provider = "";
}

-- The one spec of the registry, whose schema asks for a property.
abbrev specs : String → Option EventDef
specs name = if name == "order_placed" then some v1 else none

abbrev missing_plan : EventDef → Map Value → List String
missing_plan def [] = "plan is missing" ∷ []
missing_plan def (p ∷ ps) = []

validation_before-IsAdmitted_example :
    ((validation_before missing_plan specs true order_context).0 ≡ pass)
    ↔ IsAdmitted missing_plan (specs "order_placed") order_context
validation_before-IsAdmitted_example =
    validation_before-IsAdmitted missing_plan specs true order_context

abbrev english : AnalyticsContext
english = context_of "ann" (("locale", string "en") ∷ ("plan", string "free") ∷ [])

english-IsMap : IsMap english.attributes
unfolding has_key
english-IsMap = (refl, (refl, tt))

build_message_context-extra_example :
    lookup "plan" (build_message_context english).extra
    ≡ left_over "plan" (lookup "plan" english.attributes)
build_message_context-extra_example = build_message_context-extra english english-IsMap "plan"
