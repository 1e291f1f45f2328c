-- ===== src/Registry/Store/Audit.antt =====
-- ListAuditLog of the SQL store (registry/server/store_sql.go), with AuditFilter and AuditEntry of
-- registry/server/shared/types.go.
pub mod Listing
pub mod Entries
use event_spec.Prelude.{
  ℕ, zero, suc, Bool, true, not, ◌&&◌, List, [], ◌∷◌, Option, none, some, String, Text, ltb, leb,
  take, length, map, ◌==◌, if◌then◌else◌,
}
use event_spec.Prelude.Int.{ℤ, pos, negsuc}
use event_spec.Registry.Store.{Engine, querying, Reply, reply, failed, AuditRow, Database}
use event_spec.Registry.Store.Keys.{Clock, parse_timestamp}

-- type AuditFilter
pub record AuditFilter : Type 0 where
  pub entity_type : String
  pub user_id : String
  pub since : Option ℕ
  pub until : Option ℕ
  pub limit : ℤ

-- type AuditEntry
pub record AuditEntry : Type 0 where
  pub id : ℕ
  pub action : String
  pub entity_type : String
  pub entity_id : ℕ
  pub user_id : String
  pub timestamp : ℕ
  pub details : List (String × Text)

-- a timestamp that neither layout reads stays the zero time
unfoldable pub or_zero_time : Option ℕ → ℕ
or_zero_time none = 0
or_zero_time (some t) = t

unfoldable pub audit_entry : Clock → AuditRow → AuditEntry
audit_entry clock row = record {
  id = row.id;
  action = row.action;
  entity_type = row.entity_type;
  entity_id = row.entity_id;
  user_id = row.user_id;
  timestamp = or_zero_time (parse_timestamp clock row.timestamp);
  details = row.details;
}

-- `limit <= 0` stands for 50
unfoldable pub page_limit : ℤ → ℕ
page_limit (pos zero) = 50
page_limit (pos (suc n)) = suc n
page_limit (negsuc n) = 50

unfoldable pub not_before : ℕ → Option ℕ → Bool
not_before t none = true
not_before t (some since) = not (ltb t since)

unfoldable pub not_after : ℕ → Option ℕ → Bool
not_after t none = true
not_after t (some until) = not (ltb until t)

-- the four tests of the loop
unfoldable pub passes : AuditFilter → AuditEntry → Bool
passes filter e =
    not (not (filter.entity_type == "") && not (e.entity_type == filter.entity_type))
    && (not (not (filter.user_id == "") && not (e.user_id == filter.user_id))
        && (not_before e.timestamp filter.since && not_after e.timestamp filter.until))

-- the loop, with the number of entries it has
unfoldable pub collect : Clock → AuditFilter → ℕ → ℕ → List AuditRow → List AuditEntry
collect clock filter limit n [] = []
collect clock filter limit n (row ∷ rows) =
    let e = audit_entry clock row in
    let more = collect clock filter limit (suc n) rows in
    let same = collect clock filter limit n rows in
    if passes filter e then e ∷ (if leb limit (suc n) then [] else more) else same

-- func (st *sqlStore) ListAuditLog, with the LIMIT of its query
unfoldable pub list_audit_log :
    {Doc : Type 0} → Clock → Engine → AuditFilter → Database Doc → Reply (List AuditEntry)
list_audit_log clock engine filter db =
    if engine.on_query
    then reply (collect clock filter (page_limit filter.limit) 0 (take 1000 db.audit_log))
    else failed querying
