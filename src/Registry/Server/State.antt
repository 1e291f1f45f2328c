-- ===== src/Registry/Server/State.antt =====
-- The state of the registry server (registry/server/server.go), and its cache of events by name with
-- eventLookup of registry/server/handlers_analytics.go.
use event_spec.Prelude.{
  Bool, List, [], ◌∷◌, Option, none, some, String, Map, lookup, insert, if◌then◌else◌,
}
use event_spec.Spec.Schema.{EventDef}
use event_spec.Registry.Store.{Reply, reply, missing, failed}
use event_spec.Registry.Server.Api.{Store}

-- type Server; `none` stands for a cache that is not ready, and `clients` holds the analytics client
-- of each source that was asked for
pub record Server (S C : Type 0) : Type 0 where
  pub store : S
  pub hooks_enabled : Bool
  pub events_by_name : Option (Map EventDef)
  pub clients : Map C

-- the map that eventLookup fills: the last of the events with a name stays
unfoldable pub by_event_name : List EventDef → Map EventDef → Map EventDef
by_event_name [] m = m
by_event_name (e ∷ es) m = by_event_name es (insert e.event_name e m)

module _ {S C : Type 0} (st : Store S) where
  unfoldable pub fill_cache :
      String → Server S C → Reply (List EventDef) → Option EventDef × Server S C
  fill_cache name srv (reply defs) =
      let m = by_event_name defs [] in (lookup name m, record srv { events_by_name = some m })
  fill_cache name srv missing = (none, srv)
  fill_cache name srv (failed stage) = (none, srv)

  unfoldable pub lookup_cached :
      String → Server S C → Option (Map EventDef) → Option EventDef × Server S C
  lookup_cached name srv (some m) = (lookup name m, srv)
  lookup_cached name srv none =
      fill_cache name srv
        (st.list_events (record { namespace = ""; status = ""; tags = [] }) srv.store)

  -- func eventLookup
  unfoldable pub event_lookup : String → Server S C → Option EventDef × Server S C
  event_lookup name srv =
      if srv.hooks_enabled then lookup_cached name srv srv.events_by_name else (none, srv)

  -- the lookups of the hooks in one call
  unfoldable pub look_up_all : List String → Server S C → Server S C
  look_up_all [] srv = srv
  look_up_all (name ∷ names) srv = look_up_all names (event_lookup name srv).1

  unfoldable pub forget_cache : Server S C → Reply Unit × S → Reply Unit × Server S C
  forget_cache srv (reply u, s) = (reply u, record srv { store = s; events_by_name = none })
  forget_cache srv (missing, s) = (missing, record srv { store = s })
  forget_cache srv (failed stage, s) = (failed stage, record srv { store = s })

  -- func (s *Server) PublishEvent
  unfoldable pub publish_in_process : EventDef → String → Server S C → Reply Unit × Server S C
  publish_in_process event user_id srv = forget_cache srv (st.publish_event event user_id srv.store)
