-- ===== src/Registry/Store/Audit/Entries.antt =====
-- What the methods that write add to the audit log.
use event_spec.Prelude.{
  ℕ, ◌++◌, ◌≡◌, refl, inl, inr, Bool, true, false, not, ◌&&◌, List, ◌∷◌, Option, none, some, String,
  [], codes, Bool-cases, if-both, if◌then◌else◌,
}
use event_spec.Spec.Schema.{EventDef}
use event_spec.Spec.Workspace.{SourceDef, DestinationDef}
use event_spec.Registry.Store.{
  Codec, Engine, Stage, writing, querying, Reply, reply, missing, failed, EntityRow, AuditRow,
  Database, record_audit,
}
use event_spec.Registry.Store.Events.{
  event_audit, upsert, default_status, publish_doc, publish_event,
}
use event_spec.Registry.Store.Entities.{
  Entity, Written, inserted_row, update_rows, named_row, is_named, unwritten, written, create_doc,
  create_entity, update_found, update_doc, source_entity, destination_entity, entity_audit,
  deleted_id, update_entity, delete_named, delete_entity,
}
use event_spec.Registry.Store.Tables.{
  create_source, update_source, delete_source, create_destination, update_destination,
  delete_destination, to_sources, to_destinations,
}

-- The log after a method: one new row, by the user, when the method answers without an error, and
-- the old log otherwise.
abbrev pub IsLogged : String → Reply Unit → List AuditRow → List AuditRow → Type 0
IsLogged user_id (reply u) old log = (row : AuditRow) × (log ≡ row ∷ old) × (row.user_id ≡ user_id)
IsLogged user_id missing old log = log ≡ old
IsLogged user_id (failed stage) old log = log ≡ old

abbrev pub LogsIn : String → List AuditRow → Reply Unit × List AuditRow → Type 0
LogsIn user_id old (answer, log) = IsLogged user_id answer old log

record_audit-IsLogged :
    (engine : Engine) (row : AuditRow) (old : List AuditRow)
    → LogsIn row.user_id old (record_audit engine row old)
unfolding record_audit
record_audit-IsLogged engine row old = elim (Bool-cases engine.on_audit) [
  | inl logged ↦ rw logged (row, refl, refl)
  | inr lost ↦ rw lost refl
]

-- What a call with a database answers, and its log.
abbrev pub log_of : {Doc : Type 0} → Reply Unit × Database Doc → Reply Unit × List AuditRow
log_of (answer, db) = (answer, db.audit_log)

module _ {Doc : Type 0} where
  publish_doc-IsLogged :
      (engine : Engine) (e : EventDef) (user_id : String) (m : Option Doc) (db : Database Doc)
      → LogsIn user_id db.audit_log (log_of (publish_doc engine e user_id m db))
  unfolding publish_doc event_audit
  publish_doc-IsLogged engine e user_id none db = refl
  publish_doc-IsLogged engine e user_id (some doc) db =
      let entry = event_audit engine e user_id db.events in
      let (answer, log) = record_audit engine entry db.audit_log in
      if-both (λ (r : Reply Unit × Database Doc). LogsIn user_id db.audit_log (log_of r))
        engine.on_write
        (answer, record db { events = upsert engine e doc db.events; audit_log = log })
        (failed writing, db) (record_audit-IsLogged engine entry db.audit_log) refl

-- What a call on one table answers, and its log.
abbrev out_of : {Doc : Type 0} → Written Doc → Reply Unit × List AuditRow
out_of w = (w.answer, w.log)

-- A call that writes under a condition, and answers an error otherwise.
written-IsLogged :
    {Doc : Type 0} (b : Bool) (engine : Engine) (row : AuditRow) (stage : Stage)
    → (after rows : List (EntityRow Doc)) (old : List AuditRow)
    → LogsIn row.user_id old
        (out_of (if b then written engine row after old else unwritten (failed stage) rows old))
unfolding written unwritten
written-IsLogged true engine row stage after rows old = record_audit-IsLogged engine row old
written-IsLogged false engine row stage after rows old = refl

-- A call that goes on under a condition, and answers an error otherwise.
or_failed-IsLogged :
    {Doc : Type 0} (b : Bool) (user_id : String) (w : Written Doc) (stage : Stage)
    → (rows : List (EntityRow Doc)) (old : List AuditRow) → LogsIn user_id old (out_of w)
    → LogsIn user_id old (out_of (if b then w else unwritten (failed stage) rows old))
unfolding unwritten
or_failed-IsLogged true user_id w stage rows old h = h
or_failed-IsLogged false user_id w stage rows old h = refl

module _ {A Doc : Type 0} (entity : Entity A) (yaml : Codec A Doc) where
  -- the row of the log that an action on an entity adds
  abbrev entry_of : Engine → String → A → ℕ → String → AuditRow
  entry_of engine action def id user_id =
      entity_audit engine action entity.entity_type id user_id (entity.details_of def)

  create_doc-IsLogged :
      (engine : Engine) (def : A) (user_id : String) (m : Option Doc) (rows : List (EntityRow Doc))
      → (old : List AuditRow)
      → LogsIn user_id old (out_of (create_doc entity yaml engine def user_id m rows old))
  unfolding create_doc unwritten entity_audit
  create_doc-IsLogged engine def user_id none rows old = refl
  create_doc-IsLogged engine def user_id (some doc) rows old =
      written-IsLogged (engine.on_write && not (is_named (entity.name_of def) rows)) engine
        (entry_of engine "create" def engine.new_id user_id) writing
        (rows ++ (inserted_row engine (entity.name_of def) doc ∷ [])) rows old

  update_found-IsLogged :
      (engine : Engine) (def : A) (user_id : String) (doc : Doc) (found : Option (EntityRow Doc))
      → (rows : List (EntityRow Doc)) (old : List AuditRow)
      → LogsIn user_id old (out_of (update_found entity yaml engine def user_id doc found rows old))
  unfolding update_found unwritten entity_audit
  update_found-IsLogged engine def user_id doc none rows old = refl
  update_found-IsLogged engine def user_id doc (some row) rows old =
      written-IsLogged engine.on_write engine (entry_of engine "update" def row.id user_id) writing
        (update_rows engine (entity.name_of def) doc rows) rows old

  update_doc-IsLogged :
      (engine : Engine) (def : A) (user_id : String) (m : Option Doc) (rows : List (EntityRow Doc))
      → (old : List AuditRow)
      → LogsIn user_id old (out_of (update_doc entity yaml engine def user_id m rows old))
  unfolding update_doc unwritten
  update_doc-IsLogged engine def user_id none rows old = refl
  update_doc-IsLogged engine def user_id (some doc) rows old =
      let row = named_row (entity.name_of def) rows in
      or_failed-IsLogged engine.on_query user_id
        (update_found entity yaml engine def user_id doc row rows old) querying rows old
        (update_found-IsLogged engine def user_id doc row rows old)

  delete_named-IsLogged :
      (engine : Engine) (name user_id : String) (b : Bool) (rows : List (EntityRow Doc))
      → (old : List AuditRow)
      → LogsIn user_id old (out_of (delete_named entity yaml engine name user_id b rows old))
  unfolding delete_named unwritten written entity_audit
  delete_named-IsLogged engine name user_id false rows old = refl
  delete_named-IsLogged engine name user_id true rows old =
      record_audit-IsLogged engine
        (entity_audit engine "delete" entity.entity_type
          (deleted_id entity yaml engine (named_row name rows)) user_id (("name", codes name) ∷ []))
        old

  delete_entity-IsLogged :
      (engine : Engine) (name user_id : String) (rows : List (EntityRow Doc)) (old : List AuditRow)
      → LogsIn user_id old (out_of (delete_entity entity yaml engine name user_id rows old))
  unfolding delete_entity
  delete_entity-IsLogged engine name user_id rows old =
      let w = delete_named entity yaml engine name user_id (is_named name rows) rows old in
      or_failed-IsLogged engine.on_write user_id w writing rows old
        (delete_named-IsLogged engine name user_id (is_named name rows) rows old)

-- The calls of the store that write events, sources and destinations.
pub data StoreChange : Type 0 where
  publish : EventDef → StoreChange
  create_src update_src : SourceDef → StoreChange
  delete_src : String → StoreChange
  create_dest update_dest : DestinationDef → StoreChange
  delete_dest : String → StoreChange

module _ {Doc : Type 0} (events : Codec EventDef Doc) (sources : Codec SourceDef Doc)
    (destinations : Codec DestinationDef Doc) where
  abbrev pub change_store : Engine → String → StoreChange → Database Doc → Reply Unit × Database Doc
  change_store engine user_id (publish e) db = publish_event events engine e user_id db
  change_store engine user_id (create_src s) db = create_source sources engine s user_id db
  change_store engine user_id (update_src s) db = update_source sources engine s user_id db
  change_store engine user_id (delete_src name) db = delete_source sources engine name user_id db
  change_store engine user_id (create_dest d) db =
      create_destination destinations engine d user_id db
  change_store engine user_id (update_dest d) db =
      update_destination destinations engine d user_id db
  change_store engine user_id (delete_dest name) db =
      delete_destination destinations engine name user_id db

  -- Each of the seven methods that write events, sources and destinations adds exactly one row to
  -- the audit log, with the user who calls, when it answers without an error, and leaves the log as
  -- it is when it answers an error, whatever the engine does.
  pub change_store-IsLogged :
      (engine : Engine) (user_id : String) (c : StoreChange) (db : Database Doc)
      → LogsIn user_id db.audit_log (log_of (change_store engine user_id c db))
  unfolding publish_event create_source update_source delete_source create_destination
      update_destination delete_destination create_entity update_entity to_sources to_destinations
  change_store-IsLogged engine user_id (publish e) db =
      publish_doc-IsLogged engine (default_status e) user_id (events.marshal (default_status e)) db
  change_store-IsLogged engine user_id (create_src s) db =
      create_doc-IsLogged source_entity sources engine s user_id (sources.marshal s) db.sources
        db.audit_log
  change_store-IsLogged engine user_id (update_src s) db =
      update_doc-IsLogged source_entity sources engine s user_id (sources.marshal s) db.sources
        db.audit_log
  change_store-IsLogged engine user_id (delete_src name) db =
      delete_entity-IsLogged source_entity sources engine name user_id db.sources db.audit_log
  change_store-IsLogged engine user_id (create_dest d) db =
      create_doc-IsLogged destination_entity destinations engine d user_id (destinations.marshal d)
        db.destinations db.audit_log
  change_store-IsLogged engine user_id (update_dest d) db =
      update_doc-IsLogged destination_entity destinations engine d user_id (destinations.marshal d)
        db.destinations db.audit_log
  change_store-IsLogged engine user_id (delete_dest name) db =
      delete_entity-IsLogged destination_entity destinations engine name user_id db.destinations
        db.audit_log
