-- ===== src/Examples/Tables.antt =====
-- Concrete libraries, rows and engines for the examples of the store and of the server.
use event_spec.Prelude.{true, false, ◌≡◌, refl, subst, [], ◌∷◌, Option, none, some, codes}
use native.Mathlib.Omega.{arith}
use event_spec.Spec.Schema.{EventDef}
use event_spec.Spec.Workspace.{SourceDef, DestinationDef}
use event_spec.Registry.Store.{Codec, Driver, Engine, KeyRow, Database}
use event_spec.Registry.Store.Keys.{Clock}
use event_spec.Registry.Server.Sql.{Libraries}

-- YAML as a tree
pub data Yaml : Type 0 where
  of_event : EventDef → Yaml
  of_source : SourceDef → Yaml
  of_destination : DestinationDef → Yaml

abbrev pub read_event : Yaml → Option EventDef
read_event (of_event e) = some e
read_event (of_source s) = none
read_event (of_destination d) = none

abbrev pub read_source : Yaml → Option SourceDef
read_source (of_event e) = none
read_source (of_source s) = some s
read_source (of_destination d) = none

abbrev pub read_destination : Yaml → Option DestinationDef
read_destination (of_event e) = none
read_destination (of_source s) = none
read_destination (of_destination d) = some d

pub yaml-inj : {a b : Yaml} → some a ≡ some b → a ≡ b
yaml-inj h = cc

abbrev pub event_yaml : Codec EventDef Yaml
event_yaml = record {
  marshal = λ e. some (of_event e);
  unmarshal = read_event;
  stored = λ e. e;
  reads_back = λ e doc h. subst (λ d. read_event d ≡ some e) (yaml-inj h) refl;
}

abbrev pub source_yaml : Codec SourceDef Yaml
source_yaml = record {
  marshal = λ s. some (of_source s);
  unmarshal = read_source;
  stored = λ s. s;
  reads_back = λ s doc h. subst (λ d. read_source d ≡ some s) (yaml-inj h) refl;
}

abbrev pub destination_yaml : Codec DestinationDef Yaml
destination_yaml = record {
  marshal = λ x. some (of_destination x);
  unmarshal = read_destination;
  stored = λ x. x;
  reads_back = λ x doc h. subst (λ d. read_destination d ≡ some x) (yaml-inj h) refl;
}

-- a clock that knows one time
abbrev pub stopped : Clock
stopped = record {
  parse_rfc3339 = λ s. some 0;
  parse_sqlite = λ s. none;
  format_rfc3339 = λ t. "0001-01-01T00:00:00Z";
  whole = λ t. 0;
  whole_below = λ t. omega arith;
  format_nonempty = λ t. refl;
  parse-format = λ t. refl;
}

abbrev pub libs : Libraries Yaml
libs = record {
  events = event_yaml;
  sources = source_yaml;
  destinations = destination_yaml;
  clock = stopped;
  by_name = λ rows. rows;
  by_key = λ settings. settings;
}

-- an engine on which everything succeeds, and one that does not write
abbrev pub working : Engine
working = record {
  driver = Driver.sqlite;
  on_query = true;
  on_write = true;
  on_audit = true;
  new_id = 7;
  last_id = 7;
  audit_id = 1;
  now = "2024-05-01 10:00:00";
}

abbrev pub read_only : Engine
read_only = record working { on_write = false }

abbrev pub admin_key : KeyRow
admin_key = record {
  id = 1;
  key_hash = codes "secret";
  role = "admin";
  name = "ops";
  created_by = "alice";
  created_at = "2024-05-01 09:00:00";
  expires_at = none;
}

abbrev pub viewer_key : KeyRow
viewer_key = record admin_key {
  id = 2;
  key_hash = codes "look";
  role = "viewer";
  created_by = "bob";
}

abbrev pub tables : Database Yaml
tables = record {
  events = [];
  sources = [];
  destinations = [];
  api_keys = admin_key ∷ viewer_key ∷ [];
  webhooks = [];
  server_settings = [];
  audit_log = [];
}

abbrev pub web_source : SourceDef
web_source = record {
  name = "web";
  language = "typescript";
  mode = "relay";
  runtime_endpoint = "";
  events = [];
  destinations = [];
  output_path = "";
  source_path = "";
}
