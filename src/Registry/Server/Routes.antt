-- ===== src/Registry/Server/Routes.antt =====
-- The routes of the registry server (registry/server/handlers.go), with withAuth of
-- registry/server/auth.go before each handler, and a new server (registry/server/server.go).
pub mod Guarded
pub mod Published
use event_spec.Prelude.{
  ℕ, Bool, true, List, [], ◌∷◌, Option, none, some, String, Text, ◌==◌, if◌then◌else◌,
}
use event_spec.Spec.Schema.{EventDef, Float64}
use event_spec.Spec.Workspace.{SourceDef, DestinationDef}
use event_spec.Registry.Local.{ListFilter}
use event_spec.Registry.Store.{Reply, reply, missing, failed}
use event_spec.Registry.Server.{Access, missing_token, invalid_key, forbidden, served, with_auth}
use event_spec.Registry.Server.Api.{Store, Response, json_error}
use event_spec.Registry.Server.State.{Server}
use event_spec.Registry.Server.Context.{Origin}
use event_spec.Registry.Server.Relay.{RelayRequest, RelayClient, Builder, handle_relay}
use event_spec.Registry.Server.Events.{
  handle_list_events, handle_get_event, handle_get_event_version, handle_publish_event, handle_diff,
  handle_source_pull,
}
use event_spec.Registry.Server.Entities.{
  handle_list_sources, handle_get_source, handle_create_source, handle_update_source,
  handle_delete_source, handle_list_destinations, handle_get_destination, handle_create_destination,
  handle_update_destination, handle_delete_destination,
}
use event_spec.Registry.Server.Admin.{
  AuditQuery, KeyRequest, Surroundings, handle_audit_log, handle_register_webhook,
  handle_list_webhooks, handle_delete_webhook, handle_create_api_key, handle_list_api_keys,
  handle_revoke_api_key, handle_get_config, handle_set_config,
}

-- The requests of the routes behind withAuth, with what is read of the path, the query and the body.
pub data Request : Type 0 where
  publish_event : Option EventDef → Request
  list_events : ListFilter → Request
  get_event : String → String → Request
  get_event_version : String → String → Text → Request
  diff_event : String → String → Text → Text → Request
  pull_source : String → Request
  list_audit : AuditQuery → Request
  register_webhook : Option String → Request
  list_webhooks : Request
  delete_webhook : Text → Request
  list_keys : Request
  revoke_key : Text → Request
  get_config : Request
  set_config : String → Option String → Request
  list_sources : Request
  create_source : Option SourceDef → Request
  get_source : String → Request
  update_source : String → Option SourceDef → Request
  delete_source : String → Request
  list_destinations : Request
  create_destination : Option DestinationDef → Request
  get_destination : String → Request
  update_destination : String → Option DestinationDef → Request
  delete_destination : String → Request
  relay : RelayRequest → Origin → Request

-- the role that func routes gives to withAuth
unfoldable pub min_role : Request → String
min_role (publish_event body) = "publisher"
min_role (list_events filter) = "viewer"
min_role (get_event namespace name) = "viewer"
min_role (get_event_version namespace name version) = "viewer"
min_role (diff_event namespace name from to) = "viewer"
min_role (pull_source name) = "viewer"
min_role (list_audit q) = "admin"
min_role (register_webhook body) = "admin"
min_role list_webhooks = "admin"
min_role (delete_webhook id) = "admin"
min_role list_keys = "admin"
min_role (revoke_key id) = "admin"
min_role get_config = "admin"
min_role (set_config key body) = "admin"
min_role list_sources = "admin"
min_role (create_source body) = "admin"
min_role (get_source name) = "admin"
min_role (update_source name body) = "admin"
min_role (delete_source name) = "admin"
min_role list_destinations = "admin"
min_role (create_destination body) = "admin"
min_role (get_destination name) = "admin"
min_role (update_destination name body) = "admin"
min_role (delete_destination name) = "admin"
min_role (relay body origin) = "viewer"

-- the API key of a lookup without an error
unfoldable pub known_key : Reply (String × String) → Option (String × String)
known_key (reply key) = some key
known_key missing = none
known_key (failed stage) = none

-- the errors of withAuth
unfoldable pub access_error : Access → ℕ
access_error missing_token = 401
access_error invalid_key = 401
access_error (forbidden role) = 403
access_error (served user role) = 0

-- func New: the toggle starts as the stored setting has it, if there is one
unfoldable pub stored_toggle : Bool → Reply String → Bool
stored_toggle hooks (reply value) = value == "true"
stored_toggle hooks missing = hooks
stored_toggle hooks (failed stage) = hooks

-- The parts of the surroundings that the handlers are given.
pub record Environment : Type 0 where
  pub keys : Surroundings
  pub parse_rfc3339 : String → Option ℕ
  pub show_rate : Float64 → String

module _ {S P C : Type 0} (st : Store S) (builder : Builder P C) (client : RelayClient C) where
  unfoldable pub new_server : Bool → S → Server S C
  new_server hooks_disabled s = record {
    store = s;
    hooks_enabled =
        stored_toggle (if hooks_disabled then Bool.false else true)
          (st.get_setting "hooks_enabled" s);
    events_by_name = none;
    clients = [];
  }

  -- a handler that only reads, and one that writes to the store
  abbrev reads : Server S C → Response → Response × Server S C
  reads srv r = (r, srv)

  abbrev pub writes : Server S C → Response × S → Response × Server S C
  writes srv (r, s) = (r, record srv { store = s })

  abbrev sets : Server S C → Response × (Bool × S) → Response × Server S C
  sets srv (r, (hooks, s)) = (r, record srv { store = s; hooks_enabled = hooks })

  -- the handler of each route, for the user that withAuth has found
  unfoldable pub handle : Environment → String → Request → Server S C → Response × Server S C
  handle env user (publish_event body) srv =
      writes srv (handle_publish_event st body user srv.store)
  handle env user (list_events filter) srv = reads srv (handle_list_events st filter srv.store)
  handle env user (get_event namespace name) srv =
      reads srv (handle_get_event st namespace name srv.store)
  handle env user (get_event_version namespace name version) srv =
      reads srv (handle_get_event_version st namespace name version srv.store)
  handle env user (diff_event namespace name from to) srv =
      reads srv (handle_diff st env.show_rate namespace name from to srv.store)
  handle env user (pull_source name) srv = reads srv (handle_source_pull st name srv.store)
  handle env user (list_audit q) srv = reads srv (handle_audit_log st env.parse_rfc3339 q srv.store)
  handle env user (register_webhook body) srv =
      writes srv (handle_register_webhook st body user srv.store)
  handle env user list_webhooks srv = reads srv (handle_list_webhooks st srv.store)
  handle env user (delete_webhook id) srv = writes srv (handle_delete_webhook st id srv.store)
  handle env user list_keys srv = reads srv (handle_list_api_keys st srv.store)
  handle env user (revoke_key id) srv = writes srv (handle_revoke_api_key st id srv.store)
  handle env user get_config srv = reads srv (handle_get_config st srv.store)
  handle env user (set_config key body) srv =
      sets srv (handle_set_config st key body srv.hooks_enabled srv.store)
  handle env user list_sources srv = reads srv (handle_list_sources st srv.store)
  handle env user (create_source body) srv =
      writes srv (handle_create_source st body user srv.store)
  handle env user (get_source name) srv = reads srv (handle_get_source st name srv.store)
  handle env user (update_source name body) srv =
      writes srv (handle_update_source st name body user srv.store)
  handle env user (delete_source name) srv =
      writes srv (handle_delete_source st name user srv.store)
  handle env user list_destinations srv = reads srv (handle_list_destinations st srv.store)
  handle env user (create_destination body) srv =
      writes srv (handle_create_destination st body user srv.store)
  handle env user (get_destination name) srv = reads srv (handle_get_destination st name srv.store)
  handle env user (update_destination name body) srv =
      writes srv (handle_update_destination st name body user srv.store)
  handle env user (delete_destination name) srv =
      writes srv (handle_delete_destination st name user srv.store)
  handle env user (relay body origin) srv = handle_relay st builder client body origin srv

  unfoldable pub after_auth : Environment → Access → Request → Server S C → Response × Server S C
  after_auth env missing_token req srv = (json_error (access_error missing_token), srv)
  after_auth env invalid_key req srv = (json_error (access_error invalid_key), srv)
  after_auth env (forbidden role) req srv = (json_error (access_error (forbidden role)), srv)
  after_auth env (served user role) req srv = handle env user req srv

  -- a request with its Authorization header
  unfoldable pub serve : Environment → Text → Request → Server S C → Response × Server S C
  serve env header req srv =
      after_auth env
        (with_auth env.keys.hash (λ h. known_key (st.lookup_api_key h srv.store)) (min_role req)
          header)
        req srv

  -- POST /v1/admin/keys, which no middleware guards
  unfoldable pub serve_new_key :
      Environment → Text → Option KeyRequest → Server S C → Response × Server S C
  serve_new_key env header body srv =
      writes srv (handle_create_api_key st env.keys header body srv.store)

  -- Requests to the routes behind withAuth, one after the other, each with its surroundings and its
  -- Authorization header.
  unfoldable pub serve_all : List (Environment × (Text × Request)) → Server S C → Server S C
  serve_all [] srv = srv
  serve_all ((env, (header, req)) ∷ reqs) srv = serve_all reqs (serve env header req srv).1
