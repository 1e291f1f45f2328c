-- ===== src/Analytics/Context.antt =====
-- The analytics contexts and their precedence (analytics/context.go, analytics/client.go).
pub mod Precedence
use event_spec.Prelude.{
  Bool, true, false, not, List, [], ◌∷◌, Option, none, some, String, Map, insert_all, if◌then◌else◌,
  ◌==◌,
}
use event_spec.Prelude.Values.{Value}
use event_spec.Hooks.{AnalyticsContext}

abbrev pub override_text : String → String → String
override_text base over = if not (over == "") then over else base

-- The test whether a map is empty, and the copy loops of Merge.
unfoldable pub merge_attributes : Map Value → Map Value → Map Value
merge_attributes [] [] = []
merge_attributes base over = insert_all over (insert_all base [])

-- func Merge
unfoldable pub merge : AnalyticsContext → AnalyticsContext → AnalyticsContext
merge base over = record {
  user_id = override_text base.user_id over.user_id;
  anonymous_id = override_text base.anonymous_id over.anonymous_id;
  attributes = merge_attributes base.attributes over.attributes;
}

abbrev pub merge_if : AnalyticsContext → Option AnalyticsContext → AnalyticsContext
merge_if base none = base
merge_if base (some over) = merge base over

-- The five sources of a context: the global one, the transaction of the request, the transaction
-- of the client, the client, and the call.
pub record Sources : Type 0 where
  pub global : AnalyticsContext
  pub request : Option AnalyticsContext
  pub transaction : Option AnalyticsContext
  pub client : AnalyticsContext
  pub invocation : Option AnalyticsContext

-- func (c *Client) mergeContextChain
unfoldable pub merge_context_chain : Sources → AnalyticsContext
merge_context_chain s =
    merge_if (merge (merge_if (merge_if s.global s.request) s.transaction) s.client) s.invocation
