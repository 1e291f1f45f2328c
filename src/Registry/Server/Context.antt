-- ===== src/Registry/Server/Context.antt =====
-- The contexts of the relay: EventContext of registry/server/types.go, with mergeEventContext,
-- enrichFromRequest and extractClientIP of registry/server/handlers_analytics.go. net.SplitHostPort and
-- strings.TrimSpace are arguments.
pub mod Attributes
use event_spec.Prelude.{
  ℕ, Bool, true, false, not, ◌||◌, List, [], ◌∷◌, Option, none, some, String, Text, Map, codes,
  lookup, insert, insert_all, has_key, eqb, text_eq, ◌==◌, if◌then◌else◌,
}
use event_spec.Prelude.Values.{Value}

-- type EventContext
pub record EventContext : Type 0 where
  pub user_id : String
  pub anonymous_id : String
  pub attributes : Map Value

-- the headers and the address that enrichFromRequest reads
pub record Origin : Type 0 where
  pub user_agent : String
  pub client_ip : String

unfoldable pub first_non_empty : String → String → String
first_non_empty over base = if over == "" then base else over

unfoldable pub merged_attributes : Map Value → Map Value → Map Value
merged_attributes base [] = base
merged_attributes base (a ∷ over) = insert_all (a ∷ over) (insert_all base [])

-- func mergeEventContext
unfoldable pub merge_event_context : EventContext → EventContext → EventContext
merge_event_context base over = record {
  user_id = first_non_empty over.user_id base.user_id;
  anonymous_id = first_non_empty over.anonymous_id base.anonymous_id;
  attributes = merged_attributes base.attributes over.attributes;
}

-- one fallback of enrichFromRequest
unfoldable pub fill : String → String → Map Value → Map Value
fill name value attributes =
    if has_key name attributes || (value == "")
    then attributes
    else insert name (Value.string value) attributes

-- func enrichFromRequest
unfoldable pub enrich_from_request : EventContext → Origin → EventContext
enrich_from_request ec origin = record ec {
  attributes =
      fill "ip_address" origin.client_ip (fill "user_agent" origin.user_agent ec.attributes);
}

unfoldable pub before_comma : Text → Text
before_comma [] = []
before_comma (c ∷ s) = let rest = before_comma s in if eqb c b',' then [] else c ∷ rest

unfoldable pub host_or : Text → Option Text → Text
host_or address none = address
host_or address (some host) = host

-- func extractClientIP, of the header X-Forwarded-For and the address of the peer
unfoldable pub extract_client_ip : (Text → Text) → (Text → Option Text) → Text → Text → Text
extract_client_ip trim_space split_host_port [] remote = host_or remote (split_host_port remote)
extract_client_ip trim_space split_host_port (c ∷ forwarded) remote =
    trim_space (before_comma (c ∷ forwarded))
