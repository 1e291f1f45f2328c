-- ===== src/Registry/Store/Events.antt =====
-- The events of the SQL store: ListAllEvents, ListEvents, GetEvent and PublishEvent of
-- registry/server/store_sql.go. An error of a row scan is an error of the query.
pub mod Refines
pub mod Latest
use event_spec.Prelude.{
  ℕ, Bool, true, false, not, ◌&&◌, List, [], ◌∷◌, Option, none, some, String, Text, codes, keep,
  ◌==◌, if◌then◌else◌,
}
use event_spec.Spec.Status
use event_spec.Spec.Schema.{EventDef}
use event_spec.Spec.Version.{parse_schema_ver}
use event_spec.Registry.Latest.{Best, deduplicate_by_latest}
use event_spec.Registry.Local.{ListFilter, contains_all, improve}
use event_spec.Registry.Store.{
  Codec, Driver, postgres, sqlite, Engine, Stage, marshalling, querying, parsing, writing, Reply,
  reply, missing, failed, EventRow, AuditRow, Database, record_audit, is_key,
}

-- the conditions that ListAllEvents adds to its query
unfoldable pub in_query : {Doc : Type 0} → ListFilter → EventRow Doc → Bool
in_query filter row =
    not (not (filter.namespace == "") && not (row.namespace == filter.namespace))
    && not (not (filter.status == "") && not (row.status == filter.status))

-- the conditions of GetEvent without a version
unfoldable pub is_active_row : {Doc : Type 0} → String → String → EventRow Doc → Bool
is_active_row namespace name row =
    (row.namespace == namespace) && ((row.name == name) && (row.status == Status.active))

unfoldable pub find_row :
    {Doc : Type 0} → String → String → Text → List (EventRow Doc) → Option (EventRow Doc)
find_row namespace name version [] = none
find_row namespace name version (row ∷ rows) =
    if is_key namespace name version row then some row else find_row namespace name version rows

-- `if event.Status == ""` of PublishEvent
unfoldable pub default_status : EventDef → EventDef
default_status event = if event.status == "" then record event { status = Status.draft } else event

unfoldable pub new_row : {Doc : Type 0} → Engine → EventDef → Doc → EventRow Doc
new_row engine event doc = record {
  id = engine.new_id;
  namespace = event.namespace;
  name = event.name;
  version = event.version;
  status = event.status;
  spec_yaml = doc;
  changelog = event.changelog;
}

-- INSERT INTO events ... ON CONFLICT (namespace, name, version) DO UPDATE
unfoldable pub upsert :
    {Doc : Type 0} → Engine → EventDef → Doc → List (EventRow Doc) → List (EventRow Doc)
upsert engine event doc [] = new_row engine event doc ∷ []
upsert engine event doc (row ∷ rows) =
    if is_key event.namespace event.name event.version row
    then record row { status = event.status; spec_yaml = doc; changelog = event.changelog } ∷ rows
    else row ∷ upsert engine event doc rows

-- RETURNING id on one driver, LastInsertId on the other
unfoldable pub returned_id : {Doc : Type 0} → Engine → Driver → Option (EventRow Doc) → ℕ
returned_id engine driver none = engine.new_id
returned_id engine postgres (some row) = row.id
returned_id engine sqlite (some row) = engine.last_id

unfoldable pub event_audit :
    {Doc : Type 0} → Engine → EventDef → String → List (EventRow Doc) → AuditRow
event_audit engine event user_id rows = record {
  id = engine.audit_id;
  action = "create";
  entity_type = "event";
  entity_id =
      returned_id engine engine.driver (find_row event.namespace event.name event.version rows);
  user_id = user_id;
  timestamp = engine.now;
  details =
      ("namespace", codes event.namespace)
      ∷ ("name", codes event.name)
      ∷ ("version", event.version)
      ∷ [];
}

-- the statements of PublishEvent; they are not in a transaction
unfoldable pub publish_doc :
    {Doc : Type 0}
    → Engine
    → EventDef
    → String
    → Option Doc
    → Database Doc
    → Reply Unit × Database Doc
publish_doc engine event user_id none db = (failed marshalling, db)
publish_doc engine event user_id (some doc) db =
    let (answer, log) =
      record_audit engine (event_audit engine event user_id db.events) db.audit_log in
    if engine.on_write
    then (answer, record db { events = upsert engine event doc db.events; audit_log = log })
    else (failed writing, db)

deduplicated : Reply (List EventDef) → Reply (List EventDef)
deduplicated (reply defs) = reply (deduplicate_by_latest defs)
deduplicated missing = missing
deduplicated (failed stage) = failed stage

-- the loop over the active rows; one that does not parse is passed over
unfoldable pub newest_row : List EventDef → Option Best → Option Best
newest_row [] best = best
newest_row (def ∷ defs) best = newest_row defs (improve def (parse_schema_ver def.version) best)

unfoldable pub reply_best : Option Best → Reply EventDef
reply_best none = missing
reply_best (some best) = reply best.event

unfoldable pub add_read : {A : Type 0} → Option A → List A → List A
add_read none defs = defs
add_read (some def) defs = def ∷ defs

module _ {Doc : Type 0} (yaml : Codec EventDef Doc) where
  -- the loop of ListAllEvents; a row that does not parse is passed over
  unfoldable pub readable : List (EventRow Doc) → List EventDef
  readable [] = []
  readable (row ∷ rows) = add_read (yaml.unmarshal row.spec_yaml) (readable rows)

  -- func (st *sqlStore) ListAllEvents
  unfoldable pub list_all_events : Engine → ListFilter → Database Doc → Reply (List EventDef)
  list_all_events engine filter db =
      if engine.on_query
      then reply (
          keep (λ def. contains_all def.tags filter.tags)
            (readable (keep (in_query filter) db.events)))
      else failed querying

  -- func (st *sqlStore) ListEvents
  unfoldable pub list_events : Engine → ListFilter → Database Doc → Reply (List EventDef)
  unfolding deduplicated
  list_events engine filter db = deduplicated (list_all_events engine filter db)

  unfoldable pub read_row : Option (EventRow Doc) → Reply EventDef
  read_row none = missing
  read_row (some row) = elim (yaml.unmarshal row.spec_yaml) [
    | none ↦ failed parsing
    | some def ↦ reply def
  ]

  -- func (st *sqlStore) GetEvent
  unfoldable pub get_event : Engine → String → String → Text → Database Doc → Reply EventDef
  get_event engine namespace name [] db =
      if engine.on_query
      then reply_best (newest_row (readable (keep (is_active_row namespace name) db.events)) none)
      else failed querying
  get_event engine namespace name (c ∷ version) db =
      if engine.on_query
      then read_row (find_row namespace name (c ∷ version) db.events)
      else failed querying

  -- func (st *sqlStore) PublishEvent
  unfoldable pub publish_event :
      Engine → EventDef → String → Database Doc → Reply Unit × Database Doc
  publish_event engine event user_id db =
      publish_doc engine (default_status event) user_id (yaml.marshal (default_status event)) db
