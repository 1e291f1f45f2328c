-- ===== src/Registry/Store/Settings.antt =====
-- The webhooks and the settings of the SQL store (registry/server/store_sql.go).
use event_spec.Prelude.{
  ℕ, Option, none, some, not, List, [], ◌∷◌, ◌++◌, String, Map, lookup, insert, keep, map,
  if◌then◌else◌,
}
use event_spec.Prelude.Int.{ℤ, pos, eq_ℤ}
use event_spec.Registry.Store.{
  Engine, querying, writing, Reply, reply, missing, failed, HookRow, Database,
}
use event_spec.Registry.Store.Keys.{Clock, parse_timestamp}

-- type WebhookRecord
pub record WebhookRecord : Type 0 where
  pub id : ℕ
  pub url : String
  pub created_by : String
  pub created_at : Option ℕ

unfoldable pub webhook_record : Clock → HookRow → WebhookRecord
webhook_record clock row = record {
  id = row.id;
  url = row.url;
  created_by = row.created_by;
  created_at = parse_timestamp clock row.created_at;
}

unfoldable pub new_hook_row : Engine → String → String → HookRow
new_hook_row engine url user_id = record {
  id = engine.new_id;
  url = url;
  created_by = user_id;
  created_at = engine.now;
}

unfoldable pub read_setting : Option String → Reply String
read_setting none = missing
read_setting (some value) = reply value

module _ {Doc : Type 0} where
  -- func (st *sqlStore) ListWebhooksAdmin
  unfoldable pub list_webhooks_admin : Clock → Engine → Database Doc → Reply (List WebhookRecord)
  list_webhooks_admin clock engine db =
      if engine.on_query then reply (map (webhook_record clock) db.webhooks) else failed querying

  -- func (st *sqlStore) DeleteWebhook
  unfoldable pub delete_webhook : Engine → ℤ → Database Doc → Reply Unit × Database Doc
  delete_webhook engine id db =
      if engine.on_write
      then (reply tt, record db { webhooks = keep (λ row. not (eq_ℤ (pos row.id) id)) db.webhooks })
      else (failed writing, db)

  -- func (st *sqlStore) RegisterWebhook
  unfoldable pub register_webhook :
      Engine → String → String → Database Doc → Reply Unit × Database Doc
  register_webhook engine url user_id db =
      if engine.on_write
      then (
        reply tt,
        record db { webhooks = db.webhooks ++ (new_hook_row engine url user_id ∷ []) },
      )
      else (failed writing, db)

  -- func (st *sqlStore) ListWebhooks
  unfoldable pub list_webhooks : Engine → Database Doc → Reply (List String)
  list_webhooks engine db =
      if engine.on_query then reply (map (λ row. row.url) db.webhooks) else failed querying

  -- func (st *sqlStore) GetSetting
  unfoldable pub get_setting : Engine → String → Database Doc → Reply String
  get_setting engine key db =
      if engine.on_query then read_setting (lookup key db.server_settings) else failed querying

  -- func (st *sqlStore) SetSetting
  unfoldable pub set_setting : Engine → String → String → Database Doc → Reply Unit × Database Doc
  set_setting engine key value db =
      if engine.on_write
      then (reply tt, record db { server_settings = insert key value db.server_settings })
      else (failed writing, db)

  -- func (st *sqlStore) ListSettings; `by_key` is the engine's ORDER BY key
  unfoldable pub list_settings :
      (Map String → Map String) → Engine → Database Doc → Reply (Map String)
  list_settings by_key engine db =
      if engine.on_query then reply (by_key db.server_settings) else failed querying
