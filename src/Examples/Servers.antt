-- ===== src/Examples/Servers.antt =====
-- The server over the SQL store, on concrete requests.
use event_spec.Prelude.{
  ◌≡◌, ◌≢◌, ◌⊎◌, refl, Bool, ap, true, false, List, [], ◌∷◌, lookup, String, ℕ, ◌+◌, none, some,
  Text, codes, text_eq, any, if◌then◌else◌,
}
use event_spec.Registry.Store.{EventRow, reply, Database, record_audit}
use event_spec.Registry.Store.Events.{default_status, new_row, upsert, publish_event, publish_doc}
use event_spec.Registry.Store.Keys.{
  count_api_keys, find_key, is_expired, read_key, lookup_api_key, new_key_row, create_api_key,
}
use event_spec.Registry.Server.{
  role_level, without_prefix, or_empty_text, extract_bearer, check_role, check_token, with_auth,
}
use event_spec.Registry.Server.Api.{Response, an_event, json_ok, header_only, answer_write}
use event_spec.Registry.Server.Events.{misses_key, handle_publish_event, handle_get_event_version}
use event_spec.Registry.Server.Admin.{
  KeyRequest, handle_create_api_key, bootstrap_error, token_error, admin_error, behind_gate,
  create_requested, key_expiry, create_expiring, store_key, answer_new_key,
}
use event_spec.Registry.Server.Sql.{sql_store}
use event_spec.Registry.Server.Routes.{
  Request, Environment, known_key, min_role, after_auth, serve, serve_all, serve_new_key,
}
use event_spec.Registry.Server.Routes.Guarded.{
  KeepsStore, IsAllowed, IsAdminToken, serve-IsAllowed, serve_new_key-IsAdmin,
}
use event_spec.Registry.Server.Routes.Published.{handle_get-handle_publish}
use event_spec.Registry.Server.State.{Server, event_lookup}
use event_spec.Registry.Server.Context.{EventContext, Origin}
use event_spec.Registry.Server.Relay.{
  accepted, sampled, RelayClient, BatchItem, Builder, page, track_event,
}
use event_spec.Registry.Server.Relay.Cache.{event_lookup-serve_all}
use event_spec.Registry.Server.Routes.{handle}
use event_spec.Examples.Diffs.{v1}
use event_spec.Examples.Tables.{Yaml, libs, working, tables}

abbrev environment : Environment
environment = record {
  keys = record {
    parse_duration = λ s. none;
    now = 5;
    random_key = some (codes "fresh");
    hash = λ t. t;
  };
  parse_rfc3339 = λ s. some 0;
  show_rate = λ r. "";
}

-- A client that counts its calls and samples out every page.
abbrev counting : RelayClient ℕ
counting = record {
  looks_up = λ call ec n. [];
  send = λ call ec found n. (elim call [ page name props ↦ sampled | _ ↦ accepted ], n + 1);
  flush = λ n. (true, n);
}

abbrev counter : Builder Unit ℕ
counter = record { amplitude = λ dest. none; noop = tt; new_client = λ ps. 0 }

abbrev server : Server (Database Yaml) ℕ
server = record { store = tables; hooks_enabled = true; events_by_name = some []; clients = [] }

abbrev publication : Request
publication = Request.publish_event (some v1)

-- The number of the events in the store.
has_events : Server (Database Yaml) ℕ → Bool
has_events srv = elim srv.store.events [ [] ↦ false | row ∷ rows ↦ true ]

-- The publication by the holder of the admin's key.
abbrev served_publication : Response × Server (Database Yaml) ℕ
served_publication =
    serve (sql_store libs working 5) counter counting environment (codes "Bearer secret")
      publication server

stores_event : has_events served_publication.1 ≡ true
unfolding serve after_auth with_auth check_token check_role extract_bearer or_empty_text
    without_prefix known_key lookup_api_key find_key text_eq read_key is_expired min_role role_level
    handle handle_publish_event misses_key publish_event default_status publish_doc record_audit
    upsert new_row answer_write has_events
stores_event = refl

has_rows : List (EventRow Yaml) → Bool
has_rows rows = elim rows [ [] ↦ false | row ∷ others ↦ true ]

changes : KeepsStore (sql_store libs working 5) counter counting server served_publication.1 → ⊥
unfolding has_events has_rows
changes h = absurd cc (stores_event, ap (λ s. has_rows s.events) h.0)

serve-IsAllowed_example :
    IsAllowed
      (sql_store libs working 5)
      counter
      counting
      environment
      (codes "Bearer secret")
      publication
      server
serve-IsAllowed_example =
    serve-IsAllowed (sql_store libs working 5) counter counting environment (codes "Bearer secret")
      publication server changes

abbrev key_request : KeyRequest
key_request = record { role = "viewer"; name = "new"; expires_in = [] }

-- The number of the keys in the store is above two.
has_three_keys : Server (Database Yaml) ℕ → Bool
has_three_keys srv = elim srv.store.api_keys [
  | [] ↦ false
  | a ∷ rest ↦ elim rest [ [] ↦ false | b ∷ more ↦ elim more [ [] ↦ false | c ∷ others ↦ true ] ]
]

abbrev served_new_key : Response × Server (Database Yaml) ℕ
served_new_key =
    serve_new_key (sql_store libs working 5) counter counting environment (codes "Bearer secret")
      (some key_request) server

stores_key : has_three_keys served_new_key.1 ≡ true
unfolding serve_new_key handle_create_api_key count_api_keys bootstrap_error token_error
    extract_bearer or_empty_text without_prefix lookup_api_key find_key text_eq read_key is_expired
    admin_error role_level behind_gate create_requested key_expiry create_expiring store_key
    create_api_key any new_key_row answer_new_key has_three_keys
stores_key = refl

adds_key : served_new_key.1 ≢ server
unfolding has_three_keys
adds_key h = absurd cc (stores_key, ap has_three_keys h)

serve_new_key-IsAdmin_example :
    (count_api_keys working tables ≡ reply 0)
    ⊎ IsAdminToken
        (sql_store libs working 5)
        counter
        counting
        environment
        server
        (extract_bearer (codes "Bearer secret"))
serve_new_key-IsAdmin_example =
    serve_new_key-IsAdmin (sql_store libs working 5) counter counting environment
      (codes "Bearer secret") (some key_request) server adds_key

accepts_v1 :
    (handle_publish_event (sql_store libs working 5) (some v1) "alice" tables).0.status ≡ 201
unfolding handle_publish_event misses_key text_eq publish_event default_status publish_doc
    record_audit answer_write header_only
accepts_v1 = refl

handle_get-handle_publish_example :
    handle_get_event_version
      (sql_store libs working 5)
      "shop"
      "order_placed"
      (codes "1-0-0")
      (handle_publish_event (sql_store libs working 5) (some v1) "alice" tables).1
    ≡ json_ok (an_event (default_status v1))
handle_get-handle_publish_example =
    handle_get-handle_publish libs working working 5 5 v1 "alice" tables accepts_v1

abbrev nobody : EventContext
nobody = record { user_id = ""; anonymous_id = ""; attributes = [] }

abbrev page_item : BatchItem
page_item = record {
  type = "page";
  event_name = "";
  properties = [];
  traits = [];
  user_id = "";
  previous_id = "";
  group_id = "";
  name = "home";
  context = nobody;
}

abbrev origin : Origin
origin = record { user_agent = "browser"; client_ip = "" }

abbrev items : List BatchItem
items = page_item ∷ record page_item { type = "track"; event_name = "clicked" } ∷ []

abbrev web : String
web = "web"

-- A publication, and a call of the relay.
abbrev arrivals : List (Environment × (Text × Request))
arrivals =
    (environment, (codes "Bearer secret", publication))
    ∷ (
      environment,
      (codes "Bearer secret", Request.relay (track_event "web" "order_placed" [] nobody) origin),
    )
    ∷ []

event_lookup-serve_all_example :
    let after = serve_all (sql_store libs working 5) counter counting arrivals server in
    (event_lookup (sql_store libs working 5) "order_placed" after).0
    ≡ (if after.hooks_enabled then lookup "order_placed" [] else none)
event_lookup-serve_all_example =
    event_lookup-serve_all (sql_store libs working 5) counter counting arrivals "order_placed"
      server [] refl
