-- ===== src/Registry/Store/Entities.antt =====
-- The sources and the destinations of the SQL store (registry/server/store_sql.go). The methods of
-- the two tables run the same statements, which are written once here, for any entity with a name.
pub mod Rows
pub mod Refines
use event_spec.Prelude.{
  ℕ, Bool, true, false, not, ◌&&◌, List, [], ◌∷◌, ◌++◌, Option, none, some, String, Text, codes,
  any, map, ◌==◌, if◌then◌else◌,
}
use event_spec.Spec.Workspace.{SourceDef, DestinationDef}
use event_spec.Registry.Store.{
  Codec, Engine, marshalling, querying, parsing, writing, Reply, reply, missing, failed, EntityRow,
  AuditRow, Database, record_audit,
}
use event_spec.Registry.Store.Events.{add_read}

-- What a method does to one table and to the audit log, after its answer.
pub record Written (Doc : Type 0) : Type 0 where
  pub answer : Reply Unit
  pub rows : List (EntityRow Doc)
  pub log : List AuditRow

-- What the statements use of an entity: its name, the entity_type, and the details of the audit.
pub record Entity (A : Type 0) : Type 0 where
  pub name_of : A → String
  pub entity_type : String
  pub details_of : A → List (String × Text)

unfoldable pub named_row : {Doc : Type 0} → String → List (EntityRow Doc) → Option (EntityRow Doc)
named_row name [] = none
named_row name (row ∷ rows) = if row.name == name then some row else named_row name rows

unfoldable pub is_named : {Doc : Type 0} → String → List (EntityRow Doc) → Bool
is_named name rows = any (λ row. row.name == name) rows

abbrev pub updated_row : {Doc : Type 0} → Engine → Doc → EntityRow Doc → EntityRow Doc
updated_row engine doc row = record row { spec_yaml = doc; updated_at = engine.now }

-- UPDATE ... SET spec_yaml, updated_at WHERE name = ?
unfoldable pub update_rows :
    {Doc : Type 0} → Engine → String → Doc → List (EntityRow Doc) → List (EntityRow Doc)
update_rows engine name doc [] = []
update_rows engine name doc (row ∷ rows) =
    let rest = update_rows engine name doc rows in
    if row.name == name then updated_row engine doc row ∷ rest else row ∷ rest

-- DELETE FROM ... WHERE name = ?
unfoldable pub delete_rows : {Doc : Type 0} → String → List (EntityRow Doc) → List (EntityRow Doc)
delete_rows name [] = []
delete_rows name (row ∷ rows) =
    let rest = delete_rows name rows in if row.name == name then rest else row ∷ rest

unfoldable pub inserted_row : {Doc : Type 0} → Engine → String → Doc → EntityRow Doc
inserted_row engine name doc = record {
  id = engine.new_id;
  name = name;
  spec_yaml = doc;
  updated_at = engine.now;
}

unfoldable pub entity_audit :
    Engine → String → String → ℕ → String → List (String × Text) → AuditRow
entity_audit engine action entity_type id user_id details = record {
  id = engine.audit_id;
  action = action;
  entity_type = entity_type;
  entity_id = id;
  user_id = user_id;
  timestamp = engine.now;
  details = details;
}

unfoldable pub unwritten :
    {Doc : Type 0} → Reply Unit → List (EntityRow Doc) → List AuditRow → Written Doc
unwritten answer rows log = record { answer = answer; rows = rows; log = log }

-- the end of each method, after its write
unfoldable pub written :
    {Doc : Type 0} → Engine → AuditRow → List (EntityRow Doc) → List AuditRow → Written Doc
written engine row rows log =
    let (answer, after) = record_audit engine row log in
    record { answer = answer; rows = rows; log = after }

unfoldable pub id_of : {Doc : Type 0} → Option (EntityRow Doc) → ℕ
id_of none = 0
id_of (some row) = row.id

-- what a query of one row answers for what its YAML holds
unfoldable pub parsed : {A : Type 0} → Option A → Reply A
parsed none = failed parsing
parsed (some def) = reply def

module _ {A Doc : Type 0} (entity : Entity A) (yaml : Codec A Doc) where
  -- GetSource and GetDestination
  unfoldable pub read_entity : Option (EntityRow Doc) → Reply A
  read_entity none = missing
  read_entity (some row) = parsed (yaml.unmarshal row.spec_yaml)

  unfoldable pub get_entity : Engine → String → List (EntityRow Doc) → Reply A
  get_entity engine name rows =
      if engine.on_query then read_entity (named_row name rows) else failed querying

  -- the loop of ListSources and ListDestinationsFull
  unfoldable pub parsed_rows : List (EntityRow Doc) → List A
  parsed_rows [] = []
  parsed_rows (row ∷ rows) = add_read (yaml.unmarshal row.spec_yaml) (parsed_rows rows)

  -- the insertion, which the constraint UNIQUE on the name can refuse
  unfoldable pub create_doc :
      Engine → A → String → Option Doc → List (EntityRow Doc) → List AuditRow → Written Doc
  create_doc engine def user_id none rows log = unwritten (failed marshalling) rows log
  create_doc engine def user_id (some doc) rows log =
      if engine.on_write && not (is_named (entity.name_of def) rows)
      then written engine
          (entity_audit engine "create" entity.entity_type engine.new_id user_id
            (entity.details_of def))
          (rows ++ (inserted_row engine (entity.name_of def) doc ∷ [])) log
      else unwritten (failed writing) rows log

  -- CreateSource and CreateDestination
  unfoldable pub create_entity :
      Engine → A → String → List (EntityRow Doc) → List AuditRow → Written Doc
  create_entity engine def user_id rows log =
      create_doc engine def user_id (yaml.marshal def) rows log

  unfoldable pub update_found :
      Engine
      → A
      → String
      → Doc
      → Option (EntityRow Doc)
      → List (EntityRow Doc)
      → List AuditRow
      → Written Doc
  update_found engine def user_id doc none rows log = unwritten missing rows log
  update_found engine def user_id doc (some row) rows log =
      if engine.on_write
      then written engine
          (entity_audit engine "update" entity.entity_type row.id user_id (entity.details_of def))
          (update_rows engine (entity.name_of def) doc rows) log
      else unwritten (failed writing) rows log

  unfoldable pub update_doc :
      Engine → A → String → Option Doc → List (EntityRow Doc) → List AuditRow → Written Doc
  update_doc engine def user_id none rows log = unwritten (failed marshalling) rows log
  update_doc engine def user_id (some doc) rows log =
      if engine.on_query
      then update_found engine def user_id doc (named_row (entity.name_of def) rows) rows log
      else unwritten (failed querying) rows log

  -- UpdateSource and UpdateDestination
  unfoldable pub update_entity :
      Engine → A → String → List (EntityRow Doc) → List AuditRow → Written Doc
  update_entity engine def user_id rows log =
      update_doc engine def user_id (yaml.marshal def) rows log

  -- the id that the first query of a deletion leaves; its error is dropped
  unfoldable pub deleted_id : Engine → Option (EntityRow Doc) → ℕ
  deleted_id engine found = if engine.on_query then id_of found else 0

  unfoldable pub delete_named :
      Engine → String → String → Bool → List (EntityRow Doc) → List AuditRow → Written Doc
  delete_named engine name user_id false rows log = unwritten missing rows log
  delete_named engine name user_id true rows log =
      written engine
        (entity_audit engine "delete" entity.entity_type (deleted_id engine (named_row name rows))
          user_id (("name", codes name) ∷ []))
        (delete_rows name rows) log

  -- DeleteSource and DeleteDestination
  unfoldable pub delete_entity :
      Engine → String → String → List (EntityRow Doc) → List AuditRow → Written Doc
  delete_entity engine name user_id rows log =
      if engine.on_write
      then delete_named engine name user_id (is_named name rows) rows log
      else unwritten (failed writing) rows log

unfoldable pub source_entity : Entity SourceDef
source_entity = record {
  name_of = λ src. src.name;
  entity_type = "source";
  details_of = λ src. ("name", codes src.name) ∷ ("language", codes src.language) ∷ [];
}

unfoldable pub destination_entity : Entity DestinationDef
destination_entity = record {
  name_of = λ dest. dest.name;
  entity_type = "destination";
  details_of = λ dest. ("name", codes dest.name) ∷ ("provider", codes dest.provider) ∷ [];
}
