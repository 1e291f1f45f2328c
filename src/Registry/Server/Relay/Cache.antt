-- ===== src/Registry/Server/Relay/Cache.antt =====
-- The cache of events by name: when it is filled, forgotten and kept.
use event_spec.Prelude.{
  ◌≡◌, Bool, false, ◌∷◌, Text, List, refl, ap, ◌∙◌, true, Option, none, some, String, [], Map,
  lookup, if-ap, if◌then◌else◌,
}
use event_spec.Spec.Schema.{EventDef}
use event_spec.Registry.Store.{Reply, reply, missing, failed}
use event_spec.Registry.Server.{Access, missing_token, invalid_key, forbidden, served, with_auth}
use event_spec.Registry.Server.Api.{Store}
use event_spec.Registry.Server.Routes.{
  Request, Environment, handle, after_auth, serve, serve_all, known_key, min_role,
}
use event_spec.Registry.Server.Relay.{Builder, RelayClient}
use event_spec.Registry.Server.Relay.Keeps.{handle_relay-Keeps}
use event_spec.Registry.Server.State.{
  Server, by_event_name, fill_cache, forget_cache, lookup_cached, event_lookup, publish_in_process,
}

-- what a filling of the cache finds
abbrev pub latest_named : String → Reply (List EventDef) → Option EventDef
latest_named name (reply defs) = lookup name (by_event_name defs [])
latest_named name missing = none
latest_named name (failed stage) = none

module _ {S C : Type 0} (st : Store S) where
  lookup-if :
      (b : Bool) (name : String) (srv : Server S C) (m : Map EventDef)
      → srv.events_by_name ≡ some m
      → (if b then lookup_cached st name srv srv.events_by_name else (none, srv)).0
        ≡ (if b then lookup name m else none)
  unfolding lookup_cached
  lookup-if false name srv m filled = refl
  lookup-if true name srv m filled = ap (λ c. (lookup_cached st name srv c).0) filled

  fill_cache-latest_named :
      (name : String) (srv : Server S C) (r : Reply (List EventDef))
      → (fill_cache st name srv r).0 ≡ latest_named name r
  unfolding fill_cache
  fill_cache-latest_named name srv (reply defs) = refl
  fill_cache-latest_named name srv missing = refl
  fill_cache-latest_named name srv (failed stage) = refl

  published :
      (out : Reply Unit × S) (name : String) (srv : Server S C)
      → (forget_cache st srv out).0 ≡ reply tt
      → (event_lookup st name (forget_cache st srv out).1).0 ≡ (
          if srv.hooks_enabled
          then latest_named name
              (st.list_events (record { namespace = ""; status = ""; tags = [] }) out.1)
          else none)
  unfolding event_lookup lookup_cached forget_cache
  published (reply u, s) name srv done =
      let fresh = st.list_events (record { namespace = ""; status = ""; tags = [] }) s in
      let after : Server S C = record srv { store = s; events_by_name = none } in
      if-ap (λ (r : Option EventDef × Server S C). r.0) srv.hooks_enabled
        (fill_cache st name after fresh) (none, after)
      ∙ ap (λ x. if srv.hooks_enabled then x else none) (fill_cache-latest_named name after fresh)
  published (missing, s) name srv done = cc
  published (failed stage, s) name srv done = cc

  -- After a successful PublishEvent of the server itself, the next eventLookup reads the store again:
  -- it answers the last event with the name among the latest versions of the events there, and none
  -- when the hooks are disabled or the query fails.
  pub event_lookup-publish_in_process :
      (event : EventDef) (user_id name : String) (srv : Server S C)
      → (publish_in_process st event user_id srv).0 ≡ reply tt
      → (event_lookup st name (publish_in_process st event user_id srv).1).0 ≡ (
          if srv.hooks_enabled
          then latest_named name (
              st.list_events
                (record { namespace = ""; status = ""; tags = [] })
                (st.publish_event event user_id srv.store).1)
          else none)
  unfolding event_lookup publish_in_process
  event_lookup-publish_in_process event user_id name srv done =
      published (st.publish_event event user_id srv.store) name srv done

module _ {S P C : Type 0} (st : Store S) (builder : Builder P C) (client : RelayClient C) where
  -- No request of the HTTP routes, a publication included, empties or changes a filled cache.
  pub handle-events_by_name :
      (env : Environment) (user : String) (req : Request) (srv : Server S C) (m : Map EventDef)
      → srv.events_by_name ≡ some m
      → (handle st builder client env user req srv).1.events_by_name ≡ some m
  unfolding handle
  handle-events_by_name env user (Request.publish_event body) srv m filled = filled
  handle-events_by_name env user (Request.list_events filter) srv m filled = filled
  handle-events_by_name env user (Request.get_event namespace name) srv m filled = filled
  handle-events_by_name env user (Request.get_event_version namespace name version) srv m filled =
      filled
  handle-events_by_name env user (Request.diff_event namespace name from to) srv m filled = filled
  handle-events_by_name env user (Request.pull_source name) srv m filled = filled
  handle-events_by_name env user (Request.list_audit q) srv m filled = filled
  handle-events_by_name env user (Request.register_webhook body) srv m filled = filled
  handle-events_by_name env user Request.list_webhooks srv m filled = filled
  handle-events_by_name env user (Request.delete_webhook id) srv m filled = filled
  handle-events_by_name env user Request.list_keys srv m filled = filled
  handle-events_by_name env user (Request.revoke_key id) srv m filled = filled
  handle-events_by_name env user Request.get_config srv m filled = filled
  handle-events_by_name env user (Request.set_config key body) srv m filled = filled
  handle-events_by_name env user Request.list_sources srv m filled = filled
  handle-events_by_name env user (Request.create_source body) srv m filled = filled
  handle-events_by_name env user (Request.get_source name) srv m filled = filled
  handle-events_by_name env user (Request.update_source name body) srv m filled = filled
  handle-events_by_name env user (Request.delete_source name) srv m filled = filled
  handle-events_by_name env user Request.list_destinations srv m filled = filled
  handle-events_by_name env user (Request.create_destination body) srv m filled = filled
  handle-events_by_name env user (Request.get_destination name) srv m filled = filled
  handle-events_by_name env user (Request.update_destination name body) srv m filled = filled
  handle-events_by_name env user (Request.delete_destination name) srv m filled = filled
  handle-events_by_name env user (Request.relay body origin) srv m filled =
      (handle_relay-Keeps st builder client body origin srv).2 m filled

  after_auth-events_by_name :
      (env : Environment) (a : Access) (req : Request) (srv : Server S C) (m : Map EventDef)
      → srv.events_by_name ≡ some m
      → (after_auth st builder client env a req srv).1.events_by_name ≡ some m
  unfolding after_auth
  after_auth-events_by_name env missing_token req srv m filled = filled
  after_auth-events_by_name env invalid_key req srv m filled = filled
  after_auth-events_by_name env (forbidden role) req srv m filled = filled
  after_auth-events_by_name env (served user role) req srv m filled =
      handle-events_by_name env user req srv m filled

  serve_all-events_by_name :
      (reqs : List (Environment × (Text × Request))) (srv : Server S C) (m : Map EventDef)
      → srv.events_by_name ≡ some m
      → (serve_all st builder client reqs srv).events_by_name ≡ some m
  unfolding serve_all serve
  serve_all-events_by_name [] srv m filled = filled
  serve_all-events_by_name ((env, (header, req)) ∷ reqs) srv m filled =
      serve_all-events_by_name reqs _ m (
        after_auth-events_by_name env
          (with_auth env.keys.hash (λ h. known_key (st.lookup_api_key h srv.store)) (min_role req)
            header)
          req srv m filled)

  -- Once the cache is filled, what eventLookup answers after any sequence of requests to the routes
  -- behind withAuth, publications and calls of the relay included, is what the cache held before
  -- them, while the hooks are enabled, and none while they are disabled.
  pub event_lookup-serve_all :
      (reqs : List (Environment × (Text × Request))) (name : String) (srv : Server S C)
      (m : Map EventDef)
      → srv.events_by_name ≡ some m
      → (event_lookup st name (serve_all st builder client reqs srv)).0
        ≡ (if (serve_all st builder client reqs srv).hooks_enabled then lookup name m else none)
  unfolding event_lookup
  event_lookup-serve_all reqs name srv m filled =
      let after = serve_all st builder client reqs srv in
      lookup-if st after.hooks_enabled name after m (serve_all-events_by_name reqs srv m filled)
