-- ===== src/Registry/Server/Relay.antt =====
-- The relay of analytics calls, registry/server/handlers_analytics.go with the requests of
-- registry/server/types.go. An analytics client is what the handlers use of it: its calls, with the
-- events that its hooks look up, and its flush. A provider is built by the package of its name.
pub mod Keeps
pub mod Batch
pub mod Cache
use event_spec.Prelude.{
  ℕ, Bool, true, false, not, ◌||◌, List, [], ◌∷◌, Option, none, some, String, Text, Map, codes,
  lookup, insert, insert_all, has_key, eqb, text_eq, ◌==◌, if◌then◌else◌,
}
use event_spec.Prelude.Values.{Value}
use event_spec.Spec.Schema.{EventDef}
use event_spec.Spec.Workspace.{SourceDef, DestinationDef}
use event_spec.Registry.Store.{Reply, reply, missing, failed}
use event_spec.Registry.Server.Api.{Store, Response, json_error, header_only}
use event_spec.Registry.Server.Context.{
  EventContext, Origin, merge_event_context, enrich_from_request,
}
use event_spec.Registry.Server.State.{Server, event_lookup, look_up_all}

-- The call of a client that a request or an item asks for.
pub data RelayCall : Type 0 where
  track : String → Map Value → RelayCall
  identify : String → Map Value → RelayCall
  group : String → Map Value → RelayCall
  page : String → Map Value → RelayCall
  alias : String → String → RelayCall

-- The result of a call: no error, ErrSampled, or another error. Providers that fail give no error.
pub data Sent : Type 0 where
  accepted sampled refused : Sent

-- What the handlers use of analytics.Client. Its hooks were given eventLookup: `looks_up` are the
-- names that a call asks it for, and `send` is given the answers.
pub record RelayClient (C : Type 0) : Type 0 where
  pub looks_up : RelayCall → EventContext → C → List String
  pub send : RelayCall → EventContext → (String → Option EventDef) → C → Sent × C
  pub flush : C → Bool × C

-- type BatchItem
pub record BatchItem : Type 0 where
  pub type : String
  pub event_name : String
  pub properties : Map Value
  pub traits : Map Value
  pub user_id : String
  pub previous_id : String
  pub group_id : String
  pub name : String
  pub context : EventContext

-- The requests of the relay, one for each route; of whichever route, a body that the decoder refuses
-- is `undecodable`.
pub data RelayRequest : Type 0 where
  undecodable : RelayRequest
  track_event : String → String → Map Value → EventContext → RelayRequest
  identify_user : String → String → Map Value → EventContext → RelayRequest
  group_user : String → String → Map Value → EventContext → RelayRequest
  view_page : String → String → Map Value → EventContext → RelayRequest
  alias_user : String → String → String → EventContext → RelayRequest
  send_batch : String → EventContext → List BatchItem → RelayRequest
  flush_clients : String → RelayRequest

-- func sourceErrResponse
unfoldable pub source_error : {A : Type 0} → Reply A → ℕ
source_error (reply a) = 500
source_error missing = 400
source_error (failed stage) = 500

-- func writeSampledOrError, and the end of the handlers that call it
unfoldable pub sent_response : Sent → Response
sent_response accepted = header_only 202
sent_response sampled = header_only 202
sent_response refused = json_error 400

-- the switch of handleBatch
unfoldable pub item_call : BatchItem → Option RelayCall
item_call item =
    if item.type == "track"
    then some (track item.event_name item.properties)
    else if item.type == "identify"
    then some (identify item.user_id item.traits)
    else if item.type == "group"
    then some (group item.group_id item.traits)
    else if item.type == "page"
    then some (page item.name item.properties)
    else if item.type == "alias"
    then some (alias item.user_id item.previous_id)
    else none

-- func buildProvider, given amplitude.New, which can fail, and noop.New
unfoldable pub build_provider :
    {P : Type 0} → (DestinationDef → Option P) → P → DestinationDef → Option P
build_provider amplitude noop dest =
    if dest.provider == "amplitude" then amplitude dest else some noop

-- The packages that build a client.
pub record Builder (P C : Type 0) : Type 0 where
  pub amplitude : DestinationDef → Option P
  pub noop : P
  pub new_client : List P → C

module _ {S P C : Type 0} (st : Store S) (builder : Builder P C) (client : RelayClient C) where
  add_provider : Reply DestinationDef → List P → List P
  add_provider (reply dest) ps = elim (build_provider builder.amplitude builder.noop dest) [
    | none ↦ ps
    | some p ↦ p ∷ ps
  ]
  add_provider missing ps = ps
  add_provider (failed stage) ps = ps

  -- the providers of a source's destinations; one that is not there or not built is passed over
  unfoldable pub providers_of : List String → S → List P
  unfolding add_provider
  providers_of [] s = []
  providers_of (name ∷ names) s = add_provider (st.get_destination name s) (providers_of names s)

  or_noop : List P → List P
  or_noop [] = builder.noop ∷ []
  or_noop (p ∷ ps) = p ∷ ps

  -- a client of a source, or the error of its query, and the cache of the clients
  unfoldable pub build_client : String → S → Map C → Reply SourceDef → Reply C × Map C
  unfolding or_noop
  build_client name s clients (reply src) =
      let c = builder.new_client (or_noop (providers_of src.destinations s)) in
      (reply c, insert name c clients)
  build_client name s clients missing = (missing, clients)
  build_client name s clients (failed stage) = (failed stage, clients)

  unfoldable pub cached_client : String → S → Map C → Option C → Reply C × Map C
  cached_client name s clients (some c) = (reply c, clients)
  cached_client name s clients none = build_client name s clients (st.get_source name s)

  -- func clientForSource; a call that holds the lock is one step
  unfoldable pub client_for_source : String → S → Map C → Reply C × Map C
  client_for_source name s clients = cached_client name s clients (lookup name clients)

  abbrev pub with_clients : Server S C → Map C → Server S C
  with_clients srv clients = record srv { clients = clients }

  -- one call of a client, with the server that its hooks look events up in
  unfoldable pub send_call : RelayCall → EventContext → C × Server S C → Sent × (C × Server S C)
  send_call call ec (c, srv) =
      let (result, after) = client.send call ec (λ name. (event_lookup st name srv).0) c in
      (result, (after, look_up_all st (client.looks_up call ec c) srv))

  -- the client of a source, which keeps its new state
  abbrev pub keep_client : String → C × Server S C → Server S C
  keep_client source (c, srv) = with_clients srv (insert source c srv.clients)

  -- the error of a source that has no client, or what is done with its client
  unfoldable pub on_client :
      String
      → Reply C × Map C
      → (C × Server S C → Response × (C × Server S C))
      → Server S C
      → Response × Server S C
  on_client source (reply c, clients) act srv =
      let (response, state) = act (c, with_clients srv clients) in
      (response, keep_client source state)
  on_client source (missing, clients) act srv =
      (json_error (source_error {A = C} missing), with_clients srv clients)
  on_client source (failed stage, clients) act srv =
      (json_error (source_error {A = C} (failed stage)), with_clients srv clients)

  unfoldable pub send_one : RelayCall → EventContext → C × Server S C → Response × (C × Server S C)
  send_one call ec state =
      let (result, after) = send_call call ec state in (sent_response result, after)

  -- the body of handleTrack, handleIdentify, handleGroup, handlePage and handleAlias, where the
  -- fields that each asks for are there
  unfoldable pub relay :
      Bool → String → RelayCall → EventContext → Origin → Server S C → Response × Server S C
  relay complete source call ec origin srv =
      let sent =
        on_client source (client_for_source source srv.store srv.clients)
          (send_one call (enrich_from_request ec origin)) srv in
      if complete then sent else (json_error 400, srv)

  -- func handleTrack, on a body that the decoder has read
  unfoldable pub handle_track :
      String → String → Map Value → EventContext → Origin → Server S C → Response × Server S C
  handle_track source event_name properties ec origin srv =
      relay (not ((source == "") || (event_name == ""))) source (track event_name properties) ec
        origin srv

  -- func handleIdentify
  unfoldable pub handle_identify :
      String → String → Map Value → EventContext → Origin → Server S C → Response × Server S C
  handle_identify source user_id traits ec origin srv =
      relay (not (source == "")) source (identify user_id traits) ec origin srv

  -- func handleGroup
  unfoldable pub handle_group :
      String → String → Map Value → EventContext → Origin → Server S C → Response × Server S C
  handle_group source group_id traits ec origin srv =
      relay (not (source == "")) source (group group_id traits) ec origin srv

  -- func handlePage
  unfoldable pub handle_page :
      String → String → Map Value → EventContext → Origin → Server S C → Response × Server S C
  handle_page source name properties ec origin srv =
      relay (not ((source == "") || (name == ""))) source (page name properties) ec origin srv

  -- func handleAlias
  unfoldable pub handle_alias :
      String → String → String → EventContext → Origin → Server S C → Response × Server S C
  handle_alias source user_id previous_id ec origin srv =
      relay (not (source == "")) source (alias user_id previous_id) ec origin srv

  -- what follows the call of an item: a sampled one is passed over, and an error ends the batch
  unfoldable pub after_sent :
      (C × Server S C → Response × (C × Server S C))
      → Sent × (C × Server S C)
      → Response × (C × Server S C)
  after_sent rest (accepted, state) = rest state
  after_sent rest (sampled, state) = rest state
  after_sent rest (refused, state) = (json_error 400, state)

  unfoldable pub send_item :
      (C × Server S C → Response × (C × Server S C))
      → EventContext
      → Option RelayCall
      → C × Server S C
      → Response × (C × Server S C)
  send_item rest ec none state = (json_error 400, state)
  send_item rest ec (some call) state = after_sent rest (send_call call ec state)

  -- the loop of handleBatch
  unfoldable pub send_items :
      EventContext → List BatchItem → C × Server S C → Response × (C × Server S C)
  send_items base [] state = (header_only 202, state)
  send_items base (item ∷ items) state =
      send_item (send_items base items) (merge_event_context base item.context) (item_call item)
        state

  -- func handleBatch
  unfoldable pub handle_batch :
      String → EventContext → List BatchItem → Origin → Server S C → Response × Server S C
  handle_batch source ec items origin srv =
      let sent =
        on_client source (client_for_source source srv.store srv.clients)
          (send_items (enrich_from_request ec origin) items) srv in
      if source == "" then (json_error 400, srv) else sent

  unfoldable pub flush_one : C × Server S C → Response × (C × Server S C)
  flush_one (c, srv) =
      let (fine, after) = client.flush c in
      (if fine then header_only 202 else json_error 500, (after, srv))

  -- the loop over all the clients, which stops at the first error
  unfoldable pub flush_all : Map C → Response × Map C
  flush_all [] = (header_only 202, [])
  flush_all ((name, c) ∷ clients) =
      let rest = flush_all clients in
      let (fine, after) = client.flush c in
      if fine then (rest.0, (name, after) ∷ rest.1) else (json_error 500, (name, after) ∷ clients)

  -- func handleFlush
  unfoldable pub handle_flush : String → Server S C → Response × Server S C
  handle_flush source srv =
      let one = on_client source (client_for_source source srv.store srv.clients) flush_one srv in
      if source == ""
      then (let (response, clients) = flush_all srv.clients in (response, with_clients srv clients))
      else one

  -- the seven handlers, each with a body that its decoder reads or does not
  unfoldable pub handle_relay : RelayRequest → Origin → Server S C → Response × Server S C
  handle_relay undecodable origin srv = (json_error 400, srv)
  handle_relay (track_event source event_name properties ec) origin srv =
      handle_track source event_name properties ec origin srv
  handle_relay (identify_user source user_id traits ec) origin srv =
      handle_identify source user_id traits ec origin srv
  handle_relay (group_user source group_id traits ec) origin srv =
      handle_group source group_id traits ec origin srv
  handle_relay (view_page source name properties ec) origin srv =
      handle_page source name properties ec origin srv
  handle_relay (alias_user source user_id previous_id ec) origin srv =
      handle_alias source user_id previous_id ec origin srv
  handle_relay (send_batch source ec items) origin srv = handle_batch source ec items origin srv
  handle_relay (flush_clients source) origin srv = handle_flush source srv
