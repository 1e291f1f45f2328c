-- ===== src/Registry/Server/Admin.antt =====
-- The handlers of registry/server/handlers_admin.go. strconv.Atoi and ParseInt read a 64-bit number
-- with a sign; time.Parse, time.ParseDuration, the hash of a key and the random key are arguments.
use event_spec.Prelude.{
  ℕ, zero, suc, ◌+◌, ◌*◌, ◌-◌, ◌^◌, Bool, ◌&&◌, ◌||◌, [], ◌∷◌, Option, none, some, String, Text,
  codes, ltb, leb, eqb, ◌==◌, if◌then◌else◌,
}
use event_spec.Prelude.Int.{ℤ, pos, negsuc, wrap_int}
use event_spec.Registry.Store.{Reply, reply, missing, failed}
use event_spec.Registry.Store.Audit.{AuditFilter}
use event_spec.Registry.Server.{role_level, extract_bearer, without_suffix}
use event_spec.Registry.Server.Api.{
  Store, some_entries, some_webhooks, some_keys, a_new_key, some_settings, a_setting, Response,
  json_ok, json_error, header_only, respond, answer_write,
}

-- the decimal digits of a number, and nothing else
unfoldable pub digits_value : Text → ℕ → Option ℕ
digits_value [] n = some n
digits_value (c ∷ s) n =
    let rest = digits_value s (n * 10 + (c - b'0')) in
    if leb b'0' c && leb c b'9' then rest else none

unfoldable pub positive : Option ℕ → Option ℤ
positive none = none
positive (some n) = if ltb n (2 ^ 63) then some (pos n) else none

unfoldable pub negative : Option ℕ → Option ℤ
negative none = none
negative (some zero) = some (pos 0)
negative (some (suc n)) = if ltb n (2 ^ 63) then some (negsuc n) else none

unfoldable pub some_digits : Text → Option ℕ
some_digits [] = none
some_digits (c ∷ s) = digits_value (c ∷ s) 0

-- strconv.Atoi, and ParseInt at base 10 and 64 bits
unfoldable pub atoi : Text → Option ℤ
atoi [] = none
atoi (c ∷ s) =
    if eqb c b'-'
    then negative (some_digits s)
    else if eqb c b'+'
    then positive (some_digits s)
    else positive (some_digits (c ∷ s))

unfoldable pub limit_or_fifty : Option ℤ → ℤ
limit_or_fifty none = pos 50
limit_or_fifty (some (pos zero)) = pos 50
limit_or_fifty (some (pos (suc n))) = pos (suc n)
limit_or_fifty (some (negsuc n)) = pos 50

-- the query of a request for the audit log
pub record AuditQuery : Type 0 where
  pub limit : Text
  pub entity : String
  pub user : String
  pub since : String
  pub until : String

-- the filter that handleAuditLog makes of its query
unfoldable pub audit_filter : (String → Option ℕ) → AuditQuery → AuditFilter
audit_filter parse_rfc3339 q = record {
  entity_type = q.entity;
  user_id = q.user;
  since = if q.since == "" then none else parse_rfc3339 q.since;
  until = if q.until == "" then none else parse_rfc3339 q.until;
  limit = limit_or_fifty (atoi q.limit);
}

-- 24 hours and 365 days, in nanoseconds
abbrev pub day : ℕ
day = 24 * 3600 * 1000000000

abbrev pub year : ℕ
year = 365 * 24 * 3600 * 1000000000

-- n of a unit, which wraps round at 64 bits; `none` is the error
unfoldable pub units : ℕ → Option ℤ → Option ℤ
units unit none = none
units unit (some (pos zero)) = none
units unit (some (pos (suc n))) = some (wrap_int (pos (suc n * unit)))
units unit (some (negsuc n)) = none

unfoldable pub years_or : Option ℤ → Option Text → Option ℤ
years_or other none = other
years_or other (some n) = units year (atoi n)

unfoldable pub days_or : Option ℤ → Option Text → Option ℤ
days_or other none = other
days_or other (some n) = units day (atoi n)

-- func parseExtendedDuration
unfoldable pub parse_extended_duration : (Text → Option ℤ) → Text → Option ℤ
parse_extended_duration parse_duration s =
    days_or (years_or (parse_duration s) (without_suffix (codes "y") s))
      (without_suffix (codes "d") s)

-- time.Now().Add, on a clock far from the zero time
unfoldable pub add_duration : ℕ → ℤ → ℕ
add_duration now (pos n) = now + n
add_duration now (negsuc n) = now - suc n

-- the body of a request for a key
pub record KeyRequest : Type 0 where
  pub role : String
  pub name : String
  pub expires_in : Text

-- What a request for a key needs of its surroundings: package time, the random key, the hash.
pub record Surroundings : Type 0 where
  pub parse_duration : Text → Option ℤ
  pub now : ℕ
  pub random_key : Option Text
  pub hash : Text → Text

-- the expiry of a new key, `none` when expires_in does not parse
unfoldable pub key_expiry : Surroundings → Text → Option (Option ℕ)
key_expiry env [] = some none
key_expiry env (c ∷ s) = elim (parse_extended_duration env.parse_duration (c ∷ s)) [
  | none ↦ none
  | some d ↦ some (some (add_duration env.now d))
]

unfoldable pub answer_new_key : {S : Type 0} → Text → String → Reply ℕ × S → Response × S
answer_new_key raw_key role (reply id, s) =
    (record { status = 201; body = a_new_key id raw_key role }, s)
answer_new_key raw_key role (missing, s) = (json_error 500, s)
answer_new_key raw_key role (failed stage, s) = (json_error 500, s)

-- the check of the token on a server with keys: 0, or the status of the error
unfoldable pub admin_error : Reply (String × String) → ℕ
admin_error (reply (user, role)) = if ltb (role_level role) (role_level "admin") then 403 else 0
admin_error missing = 401
admin_error (failed stage) = 401

module _ {S : Type 0} (st : Store S) where
  -- func handleAuditLog
  unfoldable pub handle_audit_log : (String → Option ℕ) → AuditQuery → S → Response
  handle_audit_log parse_rfc3339 q s =
      respond some_entries (st.list_audit_log (audit_filter parse_rfc3339 q) s)

  -- func handleRegisterWebhook
  unfoldable pub handle_register_webhook : Option String → String → S → Response × S
  handle_register_webhook none user_id s = (json_error 400, s)
  handle_register_webhook (some url) user_id s =
      if url == ""
      then (json_error 400, s)
      else answer_write (header_only 201) (st.register_webhook url user_id s)

  -- func handleListWebhooksAdmin
  unfoldable pub handle_list_webhooks : S → Response
  handle_list_webhooks s = respond some_webhooks (st.list_webhooks_admin s)

  delete_webhook_at : Option ℤ → S → Response × S
  delete_webhook_at none s = (json_error 400, s)
  delete_webhook_at (some id) s = answer_write (header_only 204) (st.delete_webhook id s)

  -- func handleDeleteWebhook
  unfoldable pub handle_delete_webhook : Text → S → Response × S
  unfolding delete_webhook_at
  handle_delete_webhook id s = delete_webhook_at (atoi id) s

  -- the gate in front of the creation of a key, open when there is none: 0, or an error
  unfoldable pub token_error : Surroundings → Text → S → ℕ
  token_error env [] s = 401
  token_error env (c ∷ token) s = admin_error (st.lookup_api_key (env.hash (c ∷ token)) s)

  unfoldable pub bootstrap_error : Surroundings → Text → S → Reply ℕ → ℕ
  bootstrap_error env header s (reply zero) = 0
  bootstrap_error env header s (reply (suc n)) = token_error env (extract_bearer header) s
  bootstrap_error env header s missing = 500
  bootstrap_error env header s (failed stage) = 500

  unfoldable pub store_key : Surroundings → KeyRequest → Option Text → Option ℕ → S → Response × S
  store_key env req none expires_at s = (json_error 500, s)
  store_key env req (some raw_key) expires_at s =
      answer_new_key raw_key req.role
        (st.create_api_key (env.hash raw_key) req.role req.name "bootstrap" expires_at s)

  unfoldable pub create_expiring : Surroundings → KeyRequest → Option (Option ℕ) → S → Response × S
  create_expiring env req none s = (json_error 400, s)
  create_expiring env req (some expires_at) s = store_key env req env.random_key expires_at s

  -- what follows the gate. The level of a role is never negative, and no middleware stands before
  -- this handler, so that the user of the request's context is always the empty one.
  unfoldable pub create_requested : Surroundings → Option KeyRequest → S → Response × S
  create_requested env none s = (json_error 400, s)
  create_requested env (some req) s =
      if (req.role == "") || ltb (role_level req.role) 0
      then (json_error 400, s)
      else create_expiring env req (key_expiry env req.expires_in) s

  unfoldable pub behind_gate : ℕ → Surroundings → Option KeyRequest → S → Response × S
  behind_gate zero env req s = create_requested env req s
  behind_gate (suc n) env req s = (json_error (suc n), s)

  -- func handleCreateAPIKey
  unfoldable pub handle_create_api_key : Surroundings → Text → Option KeyRequest → S → Response × S
  handle_create_api_key env header req s =
      behind_gate (bootstrap_error env header s (st.count_api_keys s)) env req s

  -- func handleListAPIKeys
  unfoldable pub handle_list_api_keys : S → Response
  handle_list_api_keys s = respond some_keys (st.list_api_keys s)

  revoke_at : Option ℤ → S → Response × S
  revoke_at none s = (json_error 400, s)
  revoke_at (some id) s = answer_write (header_only 204) (st.revoke_api_key id s)

  -- func handleRevokeAPIKey
  unfoldable pub handle_revoke_api_key : Text → S → Response × S
  unfolding revoke_at
  handle_revoke_api_key id s = revoke_at (atoi id) s

  -- func handleGetConfig
  unfoldable pub handle_get_config : S → Response
  handle_get_config s = respond some_settings (st.list_settings s)

  -- the new value of the field hooksEnabled, where a setting is stored
  unfoldable pub apply_setting : String → String → Bool → Reply Unit × S → Response × (Bool × S)
  apply_setting key value hooks (reply u, s) = (json_ok (a_setting key value), (value == "true", s))
  apply_setting key value hooks (missing, s) = (json_error 500, (hooks, s))
  apply_setting key value hooks (failed stage, s) = (json_error 500, (hooks, s))

  -- func handleSetConfig; the only known key is hooks_enabled
  unfoldable pub handle_set_config : String → Option String → Bool → S → Response × (Bool × S)
  handle_set_config key none hooks s = (json_error 400, (hooks, s))
  handle_set_config key (some value) hooks s =
      if (key == "hooks_enabled") && ((value == "true") || (value == "false"))
      then apply_setting key value hooks (st.set_setting key value s)
      else (json_error 400, (hooks, s))
