-- ===== src/Registry/Store.antt =====
-- The tables of the SQL store (registry/server/store_sql.go) and what a method answers. The tables
-- are lists of rows; the database engine is an argument of each method: which of its statements
-- succeed, the ids it gives and its clock. The YAML library is a codec with one law.
pub mod Events
pub mod Entities
pub mod Tables
pub mod Keys
pub mod Audit
pub mod Settings
use event_spec.Prelude.{
  ℕ, ◌≡◌, Bool, true, false, ◌&&◌, List, ◌∷◌, Option, none, some, String, Text, Map, text_eq, ◌==◌,
  if◌then◌else◌,
}

-- yaml.Marshal and yaml.Unmarshal at one type. `stored` is what YAML keeps of a value: no field
-- tagged "-".
pub record Codec (A Doc : Type 0) : Type 0 where
  pub marshal : A → Option Doc
  pub unmarshal : Doc → Option A
  pub stored : A → A
  pub reads_back : (a : A) (doc : Doc) → marshal a ≡ some doc → unmarshal doc ≡ some (stored a)

-- the field `driver` of sqlStore
pub data Driver : Type 0 where
  postgres sqlite : Driver

-- What the engine does in one call: whether the query, the write and the insertion into the audit
-- log succeed, the ids of a new row
-- and of a new row of that log, the value of LastInsertId after an upsert that updated, and the
-- current time as a timestamp column holds it.
pub record Engine : Type 0 where
  pub driver : Driver
  pub on_query : Bool
  pub on_write : Bool
  pub on_audit : Bool
  pub new_id : ℕ
  pub last_id : ℕ
  pub audit_id : ℕ
  pub now : String

-- The place where a method fails, with an error other than ErrNotFound.
pub data Stage : Type 0 where
  marshalling querying parsing writing auditing : Stage

-- The results of a method; `missing` is an error that wraps ErrNotFound.
pub data Reply (A : Type 0) : Type 0 where
  reply : A → Reply A
  missing : Reply A
  failed : Stage → Reply A

-- a row of the table events
pub record EventRow (Doc : Type 0) : Type 0 where
  pub id : ℕ
  pub namespace : String
  pub name : String
  pub version : Text
  pub status : String
  pub spec_yaml : Doc
  pub changelog : String

-- a row of the tables sources and destinations
pub record EntityRow (Doc : Type 0) : Type 0 where
  pub id : ℕ
  pub name : String
  pub spec_yaml : Doc
  pub updated_at : String

-- a row of the table api_keys
pub record KeyRow : Type 0 where
  pub id : ℕ
  pub key_hash : Text
  pub role : String
  pub name : String
  pub created_by : String
  pub created_at : String
  pub expires_at : Option String

-- a row of the table webhooks
pub record HookRow : Type 0 where
  pub id : ℕ
  pub url : String
  pub created_by : String
  pub created_at : String

-- a row of the table audit_log; the JSON text of the details is the list of the pairs it prints
pub record AuditRow : Type 0 where
  pub id : ℕ
  pub action : String
  pub entity_type : String
  pub entity_id : ℕ
  pub user_id : String
  pub timestamp : String
  pub details : List (String × Text)

-- The audit log stands with its newest row first, the order of `ORDER BY id DESC`.
pub record Database (Doc : Type 0) : Type 0 where
  pub events : List (EventRow Doc)
  pub sources : List (EntityRow Doc)
  pub destinations : List (EntityRow Doc)
  pub api_keys : List KeyRow
  pub webhooks : List HookRow
  pub server_settings : Map String
  pub audit_log : List AuditRow

-- The insertion into audit_log that ends a method, and its result.
unfoldable pub record_audit : Engine → AuditRow → List AuditRow → Reply Unit × List AuditRow
record_audit engine row log =
    if engine.on_audit then (reply tt, row ∷ log) else (failed auditing, log)

-- the columns of the constraint UNIQUE (namespace, name, version)
unfoldable pub is_key : {Doc : Type 0} → String → String → Text → EventRow Doc → Bool
is_key namespace name version row =
    (row.namespace == namespace) && ((row.name == name) && text_eq row.version version)
