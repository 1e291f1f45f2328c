-- ===== src/Registry/Client/Methods.antt =====
-- The methods of the client that implement the interface of a registry: their URLs and what they
-- make of a response.
use event_spec.Prelude.{
  Bool, List, [], ◌∷◌, ◌++◌, Option, Text, codes, String, map, text_eq, if◌then◌else◌,
}
use event_spec.Spec.Schema.{EventDef}
use event_spec.Spec.Change.{Change}
use event_spec.Registry.Latest.{deduplicate_by_latest}
use event_spec.Registry.Local.{ListFilter}
use event_spec.Registry.Client.{
  ClientConfig, Target, no_target, Wire, not_found, Result, ok, failed, ParsedUrl, Disk, CacheRound,
  get, post, url_cache_key, get_with_cache,
}

-- url.Parse, url.Values.Encode, and what reads the field error of a body.
pub record ClientLibraries : Type 0 where
  pub parse_url : Text → Option ParsedUrl
  pub encode_query : List (Text × Text) → Text
  pub error : Target Text

unfoldable pub set_value : Text → String → List (Text × Text)
set_value key value = if text_eq (codes value) [] then [] else (key, codes value) ∷ []

-- the query of ListAllEvents
unfoldable pub query_of : ListFilter → List (Text × Text)
query_of filter =
    set_value (codes "namespace") filter.namespace
    ++ (set_value (codes "status") filter.status
        ++ map (λ tag. (codes "tag", codes tag)) filter.tags)

unfoldable pub with_query : ClientLibraries → Text → List (Text × Text) → Text
with_query libs url [] = url
with_query libs url (value ∷ values) = url ++ (b'?' ∷ libs.encode_query (value ∷ values))

-- a segment of a path
abbrev pub segment : Text → Text
segment s = b'/' ∷ s

unfoldable pub event_url : Text → Text → Text → Text → Text
event_url base namespace name version =
    base
    ++ (codes "/v1/events"
        ++ (segment namespace
            ++ (segment name ++ (if text_eq version [] then [] else segment version))))

unfoldable pub diff_url : Text → Text → Text → Text → Text → Text
diff_url base namespace name old new =
    base
    ++ (codes "/v1/diff" ++ (segment namespace ++ (segment name ++ (segment old ++ segment new))))

unfoldable pub map_result : {A B : Type 0} → (A → B) → Result A → Result B
map_result f (ok a) = ok (f a)
map_result f (failed why) = failed why

-- func ListAllEvents
unfoldable pub list_all_events :
    ClientConfig
    → ClientLibraries
    → Target (List EventDef)
    → ListFilter
    → CacheRound
    → Disk
    → Result (List EventDef) × Disk
list_all_events cfg libs target filter round disk =
    let url = with_query libs (cfg.base_url ++ codes "/v1/events") (query_of filter) in
    get_with_cache cfg target libs.error (url_cache_key libs.parse_url url) round disk

-- func ListEvents
unfoldable pub list_events :
    ClientConfig
    → ClientLibraries
    → Target (List EventDef)
    → ListFilter
    → CacheRound
    → Disk
    → Result (List EventDef) × Disk
list_events cfg libs target filter round disk =
    let (events, after) = list_all_events cfg libs target filter round disk in
    (map_result deduplicate_by_latest events, after)

-- func GetEvent
unfoldable pub get_event :
    ClientConfig
    → ClientLibraries
    → Target EventDef
    → Text
    → Text
    → Text
    → CacheRound
    → Disk
    → Result EventDef × Disk
get_event cfg libs target namespace name version round disk =
    get_with_cache cfg target libs.error
      (url_cache_key libs.parse_url (event_url cfg.base_url namespace name version)) round disk

-- func PublishEvent; `encoded` is whether the event could be encoded, and `send` what comes of the
-- request with a URL
unfoldable pub publish_event : ClientConfig → ClientLibraries → Bool → (Text → Wire) → Result Unit
publish_event cfg libs encoded send =
    post no_target libs.error encoded (send (cfg.base_url ++ codes "/v1/events"))

-- func Diff
unfoldable pub diff_events :
    ClientConfig
    → ClientLibraries
    → Target (List Change)
    → Text
    → Text
    → Text
    → Text
    → (Text → Wire)
    → Result (List Change)
diff_events cfg libs target namespace name old new send =
    get target libs.error (send (diff_url cfg.base_url namespace name old new))

-- func GetSource
unfoldable pub get_source : {A : Type 0} → Text → Result A
get_source name = failed not_found
