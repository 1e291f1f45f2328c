-- ===== src/Examples/Stores.antt =====
-- The SQL store on concrete tables.
use event_spec.Prelude.{◌≡◌, refl, List, [], ◌∷◌, none, codes, map, keep, take, any, text_eq}
use event_spec.Prelude.Int.{pos}
use event_spec.Spec.Workspace.{SourceDef}
use event_spec.Registry.Local.{find_active, found_best}
use event_spec.Registry.Store.{reply, Database}
use event_spec.Registry.Store.Events.{get_event, publish_event, readable}
use event_spec.Registry.Store.Events.Refines.{
  Publication, publish_all, replay, view, get_event-publish_all,
}
use event_spec.Registry.Store.Events.Latest.{
  AllTrue, from_found, get_event-find_active, publish_event-AllTrue,
}
use event_spec.Registry.Store.Entities.{get_entity, source_entity}
use event_spec.Registry.Store.Entities.Rows
use event_spec.Registry.Store.Entities.Refines
use event_spec.Registry.Store.Entities.Refines.{
  TableCall, create, update, delete, run, get_entity-run,
}
use event_spec.Registry.Store.Keys.Access.{without_id, lookup_api_key-revoke_api_key}
use event_spec.Registry.Store.Keys.Unique.{HaveOwnHashes}
use event_spec.Registry.Store.Keys.{find_key, read_key, lookup_api_key, revoke_api_key}
use event_spec.Registry.Store.Audit.{AuditFilter, audit_entry, passes, page_limit, list_audit_log}
use event_spec.Registry.Store.Audit.Listing.{list_audit_log-take}
use event_spec.Registry.Store.Audit.Entries.{
  create_src, change_store, LogsIn, log_of, change_store-IsLogged,
}
use event_spec.Examples.Diffs.{v1, v2}
use event_spec.Examples.Tables.{
  Yaml, event_yaml, source_yaml, destination_yaml, stopped, working, read_only, tables, web_source,
}

-- The second publication is lost: the engine does not write.
abbrev publications : List Publication
publications =
    record { engine = working; event = v1; user_id = "alice" }
    ∷ record { engine = read_only; event = v2; user_id = "alice" }
    ∷ []

get_event-publish_all_example :
    get_event event_yaml working "shop" "order_placed"
      (codes "1-0-0")
      (publish_all event_yaml publications tables)
    ≡ replay event_yaml publications (view event_yaml tables) "shop" "order_placed" (codes "1-0-0")
get_event-publish_all_example =
    get_event-publish_all event_yaml publications tables working "shop" "order_placed" b'1'
      (codes "-0-0")

abbrev with_v1 : Database Yaml
with_v1 = (publish_event event_yaml working v1 "alice" tables).1

true_columns : AllTrue event_yaml with_v1
true_columns = publish_event-AllTrue event_yaml working v1 "alice" tables (refl, refl, refl) tt

get_event-find_active_example :
    get_event event_yaml working "shop" "order_placed" [] with_v1
    ≡ from_found event_yaml
        (found_best (find_active "shop" "order_placed" (readable event_yaml with_v1.events) none))
get_event-find_active_example =
    get_event-find_active event_yaml working "shop" "order_placed" with_v1 true_columns

abbrev source_calls : List (TableCall SourceDef)
source_calls =
    record { engine = working; user_id = "alice"; action = create web_source }
    ∷ record {
      engine = working;
      user_id = "alice";
      action = update (record web_source { mode = "local" });
    }
    ∷ record { engine = read_only; user_id = "bob"; action = delete "web" }
    ∷ []

get_entity-run_example :
    get_entity source_entity source_yaml working "web"
      (run source_entity source_yaml source_calls [] [])
    ≡ Refines.replay source_entity source_yaml source_calls
        (Rows.view source_entity source_yaml [])
        "web"
get_entity-run_example = get_entity-run source_entity source_yaml source_calls [] [] working "web"

own_hashes : HaveOwnHashes tables.api_keys
unfolding any text_eq
own_hashes = (refl, (refl, tt))

lookup_api_key-revoke_api_key_example :
    lookup_api_key stopped working 5 (codes "look") (revoke_api_key working (pos 2) tables).1
    ≡ read_key stopped 5 (without_id (pos 2) (find_key (codes "look") tables.api_keys))
lookup_api_key-revoke_api_key_example =
    lookup_api_key-revoke_api_key stopped working working 5 (pos 2) (codes "look") tables refl
      own_hashes

abbrev by_alice : AuditFilter
by_alice = record { entity_type = ""; user_id = "alice"; since = none; until = none; limit = pos 1 }

list_audit_log-take_example :
    list_audit_log stopped working by_alice with_v1
    ≡ reply (
        take
          (page_limit (pos 1))
          (keep (passes by_alice) (map (audit_entry stopped) (take 1000 with_v1.audit_log))))
list_audit_log-take_example = list_audit_log-take stopped working by_alice with_v1

change_store-IsLogged_example : LogsIn "alice" with_v1.audit_log (
    log_of (
      change_store event_yaml source_yaml destination_yaml working "alice"
        (create_src web_source)
        with_v1))
change_store-IsLogged_example =
    change_store-IsLogged event_yaml source_yaml destination_yaml working "alice"
      (create_src web_source) with_v1
