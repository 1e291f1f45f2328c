-- ===== src/Registry/Store/Keys.antt =====
-- The API keys of the SQL store (registry/server/store_sql.go): LookupAPIKey, CountAPIKeys,
-- CreateAPIKey, ListAPIKeys and RevokeAPIKey. Times are numbers; the layout RFC 3339, the layout of
-- SQLite and the zero time are those of a clock.
pub mod Unique
pub mod Access
use event_spec.Prelude.{
  ℕ, ◌≡◌, ◌≤◌, Bool, true, false, not, ◌&&◌, List, [], ◌∷◌, ◌++◌, Option, none, some, String, Text,
  text_eq, ltb, eqb, any, map, keep, length, ◌==◌, if◌then◌else◌,
}
use event_spec.Prelude.Int.{ℤ, pos, eq_ℤ}
use event_spec.Registry.Store.{
  Driver, Engine, querying, writing, Reply, reply, missing, failed, KeyRow, Database,
}

-- Package time: RFC 3339 has no fraction of a second, so that a formatted time reads back as `whole`.
pub record Clock : Type 0 where
  pub parse_rfc3339 : String → Option ℕ
  pub parse_sqlite : String → Option ℕ
  pub format_rfc3339 : ℕ → String
  pub whole : ℕ → ℕ
  pub whole_below : (t : ℕ) → whole t ≤ t
  pub format_nonempty : (t : ℕ) → (format_rfc3339 t == "") ≡ false
  pub parse-format : (t : ℕ) → parse_rfc3339 (format_rfc3339 t) ≡ some (whole t)

unfoldable pub or_sqlite : Option ℕ → Option ℕ → Option ℕ
or_sqlite none second = second
or_sqlite (some t) second = some t

-- the two attempts at a timestamp column
unfoldable pub parse_timestamp : Clock → String → Option ℕ
parse_timestamp clock ts = or_sqlite (clock.parse_rfc3339 ts) (clock.parse_sqlite ts)

unfoldable pub find_key : Text → List KeyRow → Option KeyRow
find_key key_hash [] = none
find_key key_hash (row ∷ rows) =
    if text_eq row.key_hash key_hash then some row else find_key key_hash rows

unfoldable pub is_before : Option ℕ → ℕ → Bool
is_before none now = false
is_before (some exp) now = ltb exp now

-- whether `expires_at` is there, is a time, and is past
unfoldable pub is_expired : Clock → ℕ → Option String → Bool
is_expired clock now none = false
is_expired clock now (some s) = not (s == "") && is_before (clock.parse_rfc3339 s) now

unfoldable pub read_key : Clock → ℕ → Option KeyRow → Reply (String × String)
read_key clock now none = missing
read_key clock now (some row) =
    if is_expired clock now row.expires_at then missing else reply (row.created_by, row.role)

-- func (st *sqlStore) LookupAPIKey
unfoldable pub lookup_api_key :
    {Doc : Type 0} → Clock → Engine → ℕ → Text → Database Doc → Reply (String × String)
lookup_api_key clock engine now key_hash db =
    if engine.on_query then read_key clock now (find_key key_hash db.api_keys) else failed querying

-- func (st *sqlStore) CountAPIKeys
unfoldable pub count_api_keys : {Doc : Type 0} → Engine → Database Doc → Reply ℕ
count_api_keys engine db = if engine.on_query then reply (length db.api_keys) else failed querying

unfoldable pub expires_column : Clock → Option ℕ → Option String
expires_column clock none = none
expires_column clock (some t) = some (clock.format_rfc3339 t)

unfoldable pub new_key_row : Clock → Engine → Text → String → String → String → Option ℕ → KeyRow
new_key_row clock engine key_hash role name created_by expires_at = record {
  id = engine.new_id;
  key_hash = key_hash;
  role = role;
  name = name;
  created_by = created_by;
  created_at = engine.now;
  expires_at = expires_column clock expires_at;
}

-- func (st *sqlStore) CreateAPIKey; the column key_hash is UNIQUE
unfoldable pub create_api_key :
    {Doc : Type 0}
    → Clock
    → Engine
    → Text
    → String
    → String
    → String
    → Option ℕ
    → Database Doc
    → Reply ℕ × Database Doc
create_api_key clock engine key_hash role name created_by expires_at db =
    if engine.on_write && not (any (λ row. text_eq row.key_hash key_hash) db.api_keys)
    then (
      reply engine.new_id,
      record db {
        api_keys =
            db.api_keys ++ (new_key_row clock engine key_hash role name created_by expires_at ∷ []);
      },
    )
    else (failed writing, db)

-- type APIKeyRecord
pub record KeyRecord : Type 0 where
  pub id : ℕ
  pub role : String
  pub name : String
  pub created_by : String
  pub created_at : Option ℕ
  pub expires_at : Option ℕ

unfoldable pub read_expiry : Clock → Option String → Option ℕ
read_expiry clock none = none
read_expiry clock (some ts) = if ts == "" then none else parse_timestamp clock ts

unfoldable pub key_record : Clock → KeyRow → KeyRecord
key_record clock row = record {
  id = row.id;
  role = row.role;
  name = row.name;
  created_by = row.created_by;
  created_at = parse_timestamp clock row.created_at;
  expires_at = read_expiry clock row.expires_at;
}

-- func (st *sqlStore) ListAPIKeys; the rows stand in the order of their ids
unfoldable pub list_api_keys :
    {Doc : Type 0} → Clock → Engine → Database Doc → Reply (List KeyRecord)
list_api_keys clock engine db =
    if engine.on_query then reply (map (key_record clock) db.api_keys) else failed querying

-- func (st *sqlStore) RevokeAPIKey
unfoldable pub revoke_api_key :
    {Doc : Type 0} → Engine → ℤ → Database Doc → Reply Unit × Database Doc
revoke_api_key engine id db =
    if engine.on_write
    then (reply tt, record db { api_keys = keep (λ row. not (eq_ℤ (pos row.id) id)) db.api_keys })
    else (failed writing, db)
