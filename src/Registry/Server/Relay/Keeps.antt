-- ===== src/Registry/Server/Relay/Keeps.antt =====
-- What the relay keeps of the server.
use event_spec.Prelude.{
  ◌≡◌, refl, ◌∙◌, Bool, true, false, List, [], ◌∷◌, Option, none, some, String, Map, if◌then◌else◌,
  ◌==◌,
}
use event_spec.Spec.Schema.{EventDef}
use event_spec.Registry.Store.{Reply, reply, missing, failed}
use event_spec.Registry.Server.Api.{Store, Response, json_error}
use event_spec.Registry.Server.State.{Server, fill_cache, lookup_cached, event_lookup, look_up_all}
use event_spec.Registry.Server.Context.{
  EventContext, Origin, merge_event_context, enrich_from_request,
}
use event_spec.Registry.Server.Relay.{
  RelayCall, Sent, accepted, sampled, refused, RelayClient, BatchItem, RelayRequest, undecodable,
  track_event, identify_user, group_user, view_page, alias_user, send_batch, flush_clients, Builder,
  item_call, send_call, on_client, send_one, relay, handle_track, handle_identify, handle_group,
  handle_page, handle_alias, after_sent, send_item, send_items, handle_batch, flush_one,
  handle_flush, handle_relay,
}

module _ {S C : Type 0} where
  -- The store and the toggle of the hooks stay, and so does a cache of events that is filled.
  abbrev pub Keeps : Server S C → Server S C → Type 0
  Keeps srv after =
      (after.store ≡ srv.store)
      × (after.hooks_enabled ≡ srv.hooks_enabled)
      × ((m : Map EventDef) → srv.events_by_name ≡ some m → after.events_by_name ≡ some m)

  pub Keeps-refl : (srv : Server S C) → Keeps srv srv
  Keeps-refl srv = (refl, refl, λ m h. h)

  pub Keeps-trans : (a b c : Server S C) → Keeps a b → Keeps b c → Keeps a c
  Keeps-trans a b c (s, h, e) (s', h', e') = (s' ∙ s, h' ∙ h, λ m f. e' m (e m f))

  Keeps-if :
      {X : Type 0} (srv : Server S C) (b : Bool) (x y : X × Server S C)
      → Keeps srv x.1
      → Keeps srv y.1
      → Keeps srv (if b then x else y).1
  Keeps-if srv true x y h g = h
  Keeps-if srv false x y h g = g

module _ {S C : Type 0} (st : Store S) where
  fill_cache-Keeps :
      (name : String) (srv : Server S C) (r : Reply (List EventDef))
      → srv.events_by_name ≡ none
      → Keeps srv (fill_cache st name srv r).1
  unfolding fill_cache
  fill_cache-Keeps name srv (reply defs) fresh = (refl, refl, λ m h. absurd cc (fresh, h))
  fill_cache-Keeps name srv missing fresh = Keeps-refl srv
  fill_cache-Keeps name srv (failed stage) fresh = Keeps-refl srv

  lookup_cached-Keeps :
      (name : String) (srv : Server S C) (o : Option (Map EventDef))
      → srv.events_by_name ≡ o
      → Keeps srv (lookup_cached st name srv o).1
  unfolding lookup_cached
  lookup_cached-Keeps name srv none fresh = fill_cache-Keeps name srv _ fresh
  lookup_cached-Keeps name srv (some m) filled = Keeps-refl srv

  event_lookup-Keeps : (name : String) (srv : Server S C) → Keeps srv (event_lookup st name srv).1
  unfolding event_lookup
  event_lookup-Keeps name srv =
      Keeps-if srv srv.hooks_enabled _ (none, srv) (lookup_cached-Keeps name srv _ refl)
        (Keeps-refl srv)

  look_up_all-Keeps :
      (names : List String) (srv : Server S C) → Keeps srv (look_up_all st names srv)
  unfolding look_up_all
  look_up_all-Keeps [] srv = Keeps-refl srv
  look_up_all-Keeps (name ∷ names) srv =
      Keeps-trans srv (event_lookup st name srv).1
        (look_up_all st names (event_lookup st name srv).1) (event_lookup-Keeps name srv)
        (look_up_all-Keeps names (event_lookup st name srv).1)

module _ {S P C : Type 0} (st : Store S) (builder : Builder P C) (client : RelayClient C) where
  send_call-Keeps :
      (call : RelayCall) (ec : EventContext) (c : C) (srv : Server S C)
      → Keeps srv (send_call st builder client call ec (c, srv)).1.1
  unfolding send_call
  send_call-Keeps call ec c srv = look_up_all-Keeps st (client.looks_up call ec c) srv

  -- What is done with a client keeps the server.
  abbrev KeepsServer : (C × Server S C → Response × (C × Server S C)) → Type 0
  KeepsServer act = (c : C) (srv : Server S C) → Keeps srv (act (c, srv)).1.1

  on_client-Keeps :
      (source : String) (r : Reply C × Map C) (act : C × Server S C → Response × (C × Server S C))
      → KeepsServer act
      → (srv : Server S C) → Keeps srv (on_client st builder client source r act srv).1
  unfolding on_client
  on_client-Keeps source (reply c, clients) act keeps srv =
      keeps c (record srv { clients = clients })
  on_client-Keeps source (missing, clients) act keeps srv = (refl, refl, λ m h. h)
  on_client-Keeps source (failed stage, clients) act keeps srv = (refl, refl, λ m h. h)

  after_sent-Keeps :
      (rest : C × Server S C → Response × (C × Server S C))
      → KeepsServer rest
      → (out : Sent × (C × Server S C)) → Keeps out.1.1 (after_sent st builder client rest out).1.1
  unfolding after_sent
  after_sent-Keeps rest keeps (accepted, (c, srv)) = keeps c srv
  after_sent-Keeps rest keeps (sampled, (c, srv)) = keeps c srv
  after_sent-Keeps rest keeps (refused, (c, srv)) = Keeps-refl srv

  send_item-Keeps :
      (rest : C × Server S C → Response × (C × Server S C))
      → KeepsServer rest
      → (ec : EventContext) (o : Option RelayCall)
      → KeepsServer (send_item st builder client rest ec o)
  unfolding send_item
  send_item-Keeps rest keeps ec none c srv = Keeps-refl srv
  send_item-Keeps rest keeps ec (some call) c srv =
      Keeps-trans srv (send_call st builder client call ec (c, srv)).1.1
        (after_sent st builder client rest (send_call st builder client call ec (c, srv))).1.1
        (send_call-Keeps call ec c srv) (after_sent-Keeps rest keeps _)

  send_items-Keeps :
      (base : EventContext) (items : List BatchItem)
      → KeepsServer (send_items st builder client base items)
  unfolding send_items
  send_items-Keeps base [] c srv = Keeps-refl srv
  send_items-Keeps base (item ∷ items) c srv =
      send_item-Keeps (send_items st builder client base items) (send_items-Keeps base items)
        (merge_event_context base item.context) (item_call item) c srv

  relay-Keeps :
      (complete : Bool) (source : String) (call : RelayCall) (ec : EventContext) (origin : Origin)
      (srv : Server S C)
      → Keeps srv (relay st builder client complete source call ec origin srv).1
  unfolding relay send_one
  relay-Keeps complete source call ec origin srv =
      Keeps-if srv complete _ (json_error 400, srv)
        (on_client-Keeps source _ (send_one st builder client call (enrich_from_request ec origin))
          (send_call-Keeps call (enrich_from_request ec origin)) srv)
        (Keeps-refl srv)

  -- Each handler of the relay keeps the store, the toggle of the hooks, and a filled cache of events.
  pub handle_relay-Keeps :
      (body : RelayRequest) (origin : Origin) (srv : Server S C)
      → Keeps srv (handle_relay st builder client body origin srv).1
  unfolding handle_relay handle_track handle_identify handle_group handle_page handle_alias
      handle_batch handle_flush flush_one
  handle_relay-Keeps undecodable origin srv = Keeps-refl srv
  handle_relay-Keeps (track_event source event_name properties ec) origin srv =
      relay-Keeps _ source _ ec origin srv
  handle_relay-Keeps (identify_user source user_id traits ec) origin srv =
      relay-Keeps _ source _ ec origin srv
  handle_relay-Keeps (group_user source group_id traits ec) origin srv =
      relay-Keeps _ source _ ec origin srv
  handle_relay-Keeps (view_page source name properties ec) origin srv =
      relay-Keeps _ source _ ec origin srv
  handle_relay-Keeps (alias_user source user_id previous_id ec) origin srv =
      relay-Keeps _ source _ ec origin srv
  handle_relay-Keeps (send_batch source ec items) origin srv =
      Keeps-if srv (source == "") (json_error 400, srv) _ (Keeps-refl srv)
        (on_client-Keeps source _ _ (send_items-Keeps (enrich_from_request ec origin) items) srv)
  handle_relay-Keeps (flush_clients source) origin srv =
      Keeps-if srv (source == "") _ _ (refl, refl, λ m h. h)
        (on_client-Keeps source _ (flush_one st builder client) (λ c s. Keeps-refl s) srv)
