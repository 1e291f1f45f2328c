-- ===== src/Registry/Server/Api.antt =====
-- What the handlers of the registry server share: the interface Store of registry/server/store.go,
-- and the responses of registry/server/response.go. A response is its status and its body; the text
-- of an error message is left out. A request's body is what the JSON decoder makes of it, `none` on
-- an error.
use event_spec.Prelude.{ℕ, List, Option, String, Text, Map}
use event_spec.Prelude.Int.{ℤ}
use event_spec.Spec.Schema.{EventDef}
use event_spec.Spec.Change.{Change}
use event_spec.Spec.Workspace.{SourceDef, DestinationDef}
use event_spec.Registry.Local.{ListFilter}
use event_spec.Registry.Store.{Reply, reply, missing, failed}
use event_spec.Registry.Store.Keys.{KeyRecord}
use event_spec.Registry.Store.Settings.{WebhookRecord}
use event_spec.Registry.Store.Audit.{AuditFilter, AuditEntry}

-- type Store
pub record Store (S : Type 0) : Type 0 where
  pub list_events : ListFilter → S → Reply (List EventDef)
  pub list_all_events : ListFilter → S → Reply (List EventDef)
  pub get_event : String → String → Text → S → Reply EventDef
  pub publish_event : EventDef → String → S → Reply Unit × S
  pub get_source : String → S → Reply SourceDef
  pub list_sources : S → Reply (List SourceDef)
  pub create_source : SourceDef → String → S → Reply Unit × S
  pub update_source : SourceDef → String → S → Reply Unit × S
  pub delete_source : String → String → S → Reply Unit × S
  pub get_destination : String → S → Reply DestinationDef
  pub list_destinations_full : S → Reply (List DestinationDef)
  pub create_destination : DestinationDef → String → S → Reply Unit × S
  pub update_destination : DestinationDef → String → S → Reply Unit × S
  pub delete_destination : String → String → S → Reply Unit × S
  pub lookup_api_key : Text → S → Reply (String × String)
  pub count_api_keys : S → Reply ℕ
  pub create_api_key : Text → String → String → String → Option ℕ → S → Reply ℕ × S
  pub list_api_keys : S → Reply (List KeyRecord)
  pub revoke_api_key : ℤ → S → Reply Unit × S
  pub list_audit_log : AuditFilter → S → Reply (List AuditEntry)
  pub register_webhook : String → String → S → Reply Unit × S
  pub list_webhooks : S → Reply (List String)
  pub list_webhooks_admin : S → Reply (List WebhookRecord)
  pub delete_webhook : ℤ → S → Reply Unit × S
  pub get_setting : String → S → Reply String
  pub set_setting : String → String → S → Reply Unit × S
  pub list_settings : S → Reply (Map String)

-- The bodies of the responses.
pub data Body : Type 0 where
  nothing : Body
  message : Body
  an_event : EventDef → Body
  some_events : List EventDef → Body
  some_changes : List Change → Body
  an_archive : List (Text × EventDef) → Body
  a_source : SourceDef → Body
  some_sources : List SourceDef → Body
  a_destination : DestinationDef → Body
  some_destinations : List DestinationDef → Body
  some_entries : List AuditEntry → Body
  some_webhooks : List WebhookRecord → Body
  some_keys : List KeyRecord → Body
  a_new_key : ℕ → Text → String → Body
  some_settings : Map String → Body
  a_setting : String → String → Body

pub record Response : Type 0 where
  pub status : ℕ
  pub body : Body

-- func jsonOK
unfoldable pub json_ok : Body → Response
json_ok body = record { status = 200; body = body }

-- func jsonError
unfoldable pub json_error : ℕ → Response
json_error status = record { status = status; body = message }

-- w.WriteHeader, without a body
unfoldable pub header_only : ℕ → Response
header_only status = record { status = status; body = nothing }

-- a query whose errors are all internal
unfoldable pub respond : {A : Type 0} → (A → Body) → Reply A → Response
respond body (reply a) = json_ok (body a)
respond body missing = json_error 500
respond body (failed stage) = json_error 500

-- func writeEventError, and the body where there is no error
unfoldable pub respond_found : {A : Type 0} → (A → Body) → Reply A → Response
respond_found body (reply a) = json_ok (body a)
respond_found body missing = json_error 404
respond_found body (failed stage) = json_error 500

-- a write whose errors are all internal
unfoldable pub answer_write : {S : Type 0} → Response → Reply Unit × S → Response × S
answer_write done (reply u, s) = (done, s)
answer_write done (missing, s) = (json_error 500, s)
answer_write done (failed stage, s) = (json_error 500, s)

-- a write on something that may not be there
unfoldable pub answer_change : {S : Type 0} → Response → Reply Unit × S → Response × S
answer_change done (reply u, s) = (done, s)
answer_change done (missing, s) = (json_error 404, s)
answer_change done (failed stage, s) = (json_error 500, s)
