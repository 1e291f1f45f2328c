-- ===== src/Registry/Server/Routes/Published.antt =====
-- A publication through the handlers of the server, and what a later request for the event gets.
use event_spec.Prelude.{
  ℕ, ◌≡◌, ◌≢◌, refl, ap, ◌∙◌, Bool, true, false, [], ◌∷◌, Option, none, some, String, Text, text_eq,
  arith, if-ap, ◌==◌, if◌then◌else◌,
}
use event_spec.Spec.Status
use event_spec.Spec.Schema.{EventDef}
use event_spec.Registry.Store.{Engine, Reply, reply, missing, failed, Database, writing, querying}
use event_spec.Registry.Store.Events.{default_status, publish_event, publish_doc, get_event}
use event_spec.Registry.Store.Events.Refines.{
  has_event_key, view, apply, apply_doc, publish_event-apply, has_event_key_iff,
}
use event_spec.Registry.Server.Api.{
  Response, an_event, json_ok, json_error, header_only, respond_found, answer_write,
}
use event_spec.Registry.Server.Events.{misses_key, handle_publish_event, handle_get_event_version}
use event_spec.Registry.Server.Sql.{Libraries, sql_store}

-- An event with a status set, under a condition, keeps its key.
has_event_key-if :
    (b : Bool) (status : String) (e : EventDef) (namespace name : String) (version : Text)
    → has_event_key (if b then record e { status = status } else e) namespace name version
      ≡ has_event_key e namespace name version
unfolding has_event_key
has_event_key-if true status e namespace name version = refl
has_event_key-if false status e namespace name version = refl

has_event_key-default_status :
    (e : EventDef) (namespace name : String) (version : Text)
    → has_event_key (default_status e) namespace name version
      ≡ has_event_key e namespace name version
unfolding default_status
has_event_key-default_status e = has_event_key-if (e.status == "") Status.draft e

default_status-if :
    (b : Bool) (e : EventDef)
    → (e.status == "") ≡ b
    → default_status (if b then record e { status = Status.draft } else e)
      ≡ (if b then record e { status = Status.draft } else e)
unfolding default_status
default_status-if true e h = refl
default_status-if false e h = ap (λ b. if b then record e { status = Status.draft } else e) h

-- The handler and the store both set the default.
default_status-default_status :
    (e : EventDef) → default_status (default_status e) ≡ default_status e
unfolding default_status
default_status-default_status e = default_status-if (e.status == "") e refl

answer_write-created :
    {S : Type 0} (out : Reply Unit × S)
    → (answer_write (header_only 201) out).0.status ≡ 201
    → out.0 ≡ reply tt
unfolding answer_write header_only json_error
answer_write-created (reply u, s) h = refl
answer_write-created (missing, s) h = absurd (omega (arith, h))
answer_write-created (failed stage, s) h = absurd (omega (arith, h))

answer_write-state :
    {S : Type 0} (done : Response) (out : Reply Unit × S) → (answer_write done out).1 ≡ out.1
unfolding answer_write
answer_write-state done (reply u, s) = refl
answer_write-state done (missing, s) = refl
answer_write-state done (failed stage, s) = refl

if-reply :
    {S : Type 0} (b : Bool) (x : Reply Unit × S) (s : S)
    → (if b then x else (failed writing, s)).0 ≡ reply tt
    → b ≡ true
if-reply true x s h = refl
if-reply false x s h = cc

publish_doc-reply :
    {Doc : Type 0} (engine : Engine) (e : EventDef) (user_id : String) (m : Option Doc)
    → (db : Database Doc) → (publish_doc engine e user_id m db).0 ≡ reply tt
    → (engine.on_write ≡ true) × ((doc : Doc) × (m ≡ some doc))
unfolding publish_doc
publish_doc-reply engine e user_id none db h = cc
publish_doc-reply engine e user_id (some doc) db h = (if-reply engine.on_write _ db h, (doc, refl))

-- The response 201 comes from a complete event, and a store that has taken it.
if-created :
    {S : Type 0} (b : Bool) (out : Reply Unit × S) (s : S)
    → (if b then (json_error 400, s) else answer_write (header_only 201) out).0.status ≡ 201
    → (b ≡ false) × (out.0 ≡ reply tt)
unfolding json_error
if-created true out s h = absurd (omega (arith, h))
if-created false out s h = (refl, answer_write-created out h)

misses_key-version : (e : EventDef) → misses_key e ≡ false → e.version ≢ []
unfolding misses_key text_eq
misses_key-version e complete empty = ground (arith, ap (λ v. text_eq v []) empty, complete)

module _ {Doc : Type 0} (libs : Libraries Doc) where
  apply_doc-written :
      (engine : Engine) (e : EventDef) (m : Option Doc)
      (s : String → String → Text → Reply EventDef)
      → (namespace name : String) (version : Text) → has_event_key e namespace name version ≡ true
      → (engine.on_write ≡ true) × ((doc : Doc) × (m ≡ some doc))
      → apply_doc libs.events engine e m s namespace name version ≡ reply (libs.events.stored e)
  unfolding apply_doc
  apply_doc-written engine e none s namespace name version key (writes, (doc, is_doc)) = cc
  apply_doc-written engine e (some doc) s namespace name version key (writes, is_doc) =
      rw (writes, key) refl

  -- A successful PublishEvent, as the store is called by the handler, is what the key reads.
  view-published :
      (engine : Engine) (ev : EventDef) (user_id : String) (db : Database Doc)
      → (publish_event libs.events engine (default_status ev) user_id db).0 ≡ reply tt
      → view libs.events
          (publish_event libs.events engine (default_status ev) user_id db).1
          ev.namespace
          ev.name
          ev.version
        ≡ reply (libs.events.stored (default_status ev))
  unfolding publish_event apply
  view-published engine ev user_id db done =
      let dd = default_status (default_status ev) in
      let key =
        has_event_key-default_status (default_status ev) ev.namespace ev.name ev.version
        ∙ (has_event_key-default_status ev ev.namespace ev.name ev.version
            ∙ (has_event_key_iff ev ev.namespace ev.name ev.version).1 (refl, refl, refl)) in
      publish_event-apply libs.events engine (default_status ev) user_id db ev.namespace ev.name
        ev.version
      ∙ (apply_doc-written engine dd (libs.events.marshal dd) (view libs.events db) ev.namespace
            ev.name ev.version key
            (publish_doc-reply engine dd user_id (libs.events.marshal dd) db done)
          ∙ ap (λ e. reply (libs.events.stored e)) (default_status-default_status ev))

  handle_get-view :
      (query : Engine) (now : ℕ) (namespace name : String) (version : Text) (db : Database Doc)
      → version ≢ []
      → handle_get_event_version (sql_store libs query now) namespace name version db ≡ (
          if query.on_query
          then respond_found an_event (view libs.events db namespace name version)
          else json_error 500)
  unfolding handle_get_event_version get_event view respond_found
  handle_get-view query now namespace name [] db named = absurd (named refl)
  handle_get-view query now namespace name (c ∷ version) db named =
      if-ap (respond_found an_event) query.on_query _ (failed querying)

  -- When POST /v1/events answers 201 to an event, GET of its namespace, name and version answers 200
  -- with what YAML keeps of the event, its status "draft" where it had none, and 500 when the query
  -- fails.
  pub handle_get-handle_publish :
      (engine query : Engine) (now later : ℕ) (ev : EventDef) (user_id : String) (db : Database Doc)
      → (handle_publish_event (sql_store libs engine now) (some ev) user_id db).0.status ≡ 201
      → handle_get_event_version
          (sql_store libs query later)
          ev.namespace
          ev.name
          ev.version
          (handle_publish_event (sql_store libs engine now) (some ev) user_id db).1
        ≡ (if query.on_query
            then json_ok (an_event (libs.events.stored (default_status ev)))
            else json_error 500)
  unfolding handle_publish_event respond_found
  handle_get-handle_publish engine query now later ev user_id db created =
      let out = publish_event libs.events engine (default_status ev) user_id db in
      let (complete, done) = if-created (misses_key ev) out db created in
      let state =
        ap (λ b. (if b then (json_error 400, db) else answer_write (header_only 201) out).1)
          complete
        ∙ answer_write-state (header_only 201) out in
      ap (handle_get_event_version (sql_store libs query later) ev.namespace ev.name ev.version)
        state
      ∙ (handle_get-view query later ev.namespace ev.name ev.version out.1
            (misses_key-version ev complete)
          ∙ ap (λ r. if query.on_query then respond_found an_event r else json_error 500)
              (view-published engine ev user_id db done))
