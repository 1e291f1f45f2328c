-- ===== src/Registry/Server/Sql.antt =====
-- The SQL store as the Store of the server (registry/server/store_sql.go behind
-- registry/server/store.go), for one behaviour of its engine.
use event_spec.Prelude.{ℕ, List, String, Map}
use event_spec.Spec.Schema.{EventDef}
use event_spec.Spec.Workspace.{SourceDef, DestinationDef}
use event_spec.Registry.Store.{Codec, Engine, EntityRow, Database}
use event_spec.Registry.Store.Events.{list_all_events, list_events, get_event, publish_event}
use event_spec.Registry.Store.Tables.{
  get_source, list_sources, create_source, update_source, delete_source, get_destination,
  list_destinations_full, create_destination, update_destination, delete_destination,
}
use event_spec.Registry.Store.Keys.{
  Clock, lookup_api_key, count_api_keys, create_api_key, list_api_keys, revoke_api_key,
}
use event_spec.Registry.Store.Settings.{
  list_webhooks_admin, delete_webhook, register_webhook, list_webhooks, get_setting, set_setting,
  list_settings,
}
use event_spec.Registry.Store.Audit.{list_audit_log}
use event_spec.Registry.Server.Api.{Store}

-- What the store is made of: the three codecs, the clock, and the orders of the engine's collation.
pub record Libraries (Doc : Type 0) : Type 0 where
  pub events : Codec EventDef Doc
  pub sources : Codec SourceDef Doc
  pub destinations : Codec DestinationDef Doc
  pub clock : Clock
  pub by_name : List (EntityRow Doc) → List (EntityRow Doc)
  pub by_key : Map String → Map String

-- type sqlStore, with the time of its lookups of keys
abbrev pub sql_store : {Doc : Type 0} → Libraries Doc → Engine → ℕ → Store (Database Doc)
sql_store libs engine now = record {
  list_events = list_events libs.events engine;
  list_all_events = list_all_events libs.events engine;
  get_event = get_event libs.events engine;
  publish_event = publish_event libs.events engine;
  get_source = get_source libs.sources engine;
  list_sources = list_sources libs.sources libs.by_name engine;
  create_source = create_source libs.sources engine;
  update_source = update_source libs.sources engine;
  delete_source = delete_source libs.sources engine;
  get_destination = get_destination libs.destinations engine;
  list_destinations_full = list_destinations_full libs.destinations libs.by_name engine;
  create_destination = create_destination libs.destinations engine;
  update_destination = update_destination libs.destinations engine;
  delete_destination = delete_destination libs.destinations engine;
  lookup_api_key = lookup_api_key libs.clock engine now;
  count_api_keys = count_api_keys engine;
  create_api_key = create_api_key libs.clock engine;
  list_api_keys = list_api_keys libs.clock engine;
  revoke_api_key = revoke_api_key engine;
  list_audit_log = list_audit_log libs.clock engine;
  register_webhook = register_webhook engine;
  list_webhooks = list_webhooks engine;
  list_webhooks_admin = list_webhooks_admin libs.clock engine;
  delete_webhook = delete_webhook engine;
  get_setting = get_setting engine;
  set_setting = set_setting engine;
  list_settings = list_settings libs.by_key engine;
}
