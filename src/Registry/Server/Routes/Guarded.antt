-- ===== src/Registry/Server/Routes/Guarded.antt =====
-- Who can change the state of the registry server.
use event_spec.Prelude.{
  ℕ, zero, suc, ◌≡◌, ◌≢◌, ◌≤◌, ◌⊎◌, refl, inl, inr, Option, [], ◌∷◌, String, Text, arith,
}
use event_spec.Registry.Store.{Reply, reply, missing, failed}
use event_spec.Registry.Server.{
  role_level, extract_bearer, Access, missing_token, invalid_key, forbidden, served, with_auth,
}
use event_spec.Registry.Server.Authorized.{IsAuthorized, with_auth-IsAuthorized}
use event_spec.Registry.Server.Api.{Store}
use event_spec.Registry.Server.Admin.{
  KeyRequest, admin_error, token_error, behind_gate, bootstrap_error, handle_create_api_key,
}
use event_spec.Registry.Server.State.{Server}
use event_spec.Registry.Server.Relay.{Builder, RelayClient}
use event_spec.Registry.Server.Relay.Keeps.{handle_relay-Keeps}
use event_spec.Registry.Server.Routes.{
  Request, Environment, min_role, known_key, writes, handle, after_auth, serve, serve_new_key,
}

level-admin : role_level "admin" ≡ 2
unfolding role_level
level-admin = refl

admin_error-zero :
    (r : Reply (String × String))
    → admin_error r ≡ 0
    → (user : String) × (role : String) × (r ≡ reply (user, role)) × (2 ≤ role_level role)
unfolding admin_error
admin_error-zero (reply (user, role)) h = (user, role, refl, ground (arith, h, level-admin))
admin_error-zero missing h = cc
admin_error-zero (failed stage) h = cc

module _ {S P C : Type 0} (st : Store S) (builder : Builder P C) (client : RelayClient C) where
  -- Neither the store nor the toggle of the hooks differs.
  abbrev pub KeepsStore : Server S C → Server S C → Type 0
  KeepsStore srv after = (after.store ≡ srv.store) × (after.hooks_enabled ≡ srv.hooks_enabled)

  -- A handler whose route is open to viewers leaves the store and the toggle as they are.
  handle-min_role :
      (env : Environment) (user : String) (req : Request) (srv : Server S C)
      → KeepsStore srv (handle st builder client env user req srv).1
        ⊎ (1 ≤ role_level (min_role req))
  unfolding handle min_role role_level
  handle-min_role env user (Request.publish_event body) srv = inr (omega arith)
  handle-min_role env user (Request.list_events filter) srv = inl (refl, refl)
  handle-min_role env user (Request.get_event namespace name) srv = inl (refl, refl)
  handle-min_role env user (Request.get_event_version namespace name version) srv = inl (refl, refl)
  handle-min_role env user (Request.diff_event namespace name from to) srv = inl (refl, refl)
  handle-min_role env user (Request.pull_source name) srv = inl (refl, refl)
  handle-min_role env user (Request.list_audit q) srv = inl (refl, refl)
  handle-min_role env user (Request.register_webhook body) srv = inr (omega arith)
  handle-min_role env user Request.list_webhooks srv = inl (refl, refl)
  handle-min_role env user (Request.delete_webhook id) srv = inr (omega arith)
  handle-min_role env user Request.list_keys srv = inl (refl, refl)
  handle-min_role env user (Request.revoke_key id) srv = inr (omega arith)
  handle-min_role env user Request.get_config srv = inl (refl, refl)
  handle-min_role env user (Request.set_config key body) srv = inr (omega arith)
  handle-min_role env user Request.list_sources srv = inl (refl, refl)
  handle-min_role env user (Request.create_source body) srv = inr (omega arith)
  handle-min_role env user (Request.get_source name) srv = inl (refl, refl)
  handle-min_role env user (Request.update_source name body) srv = inr (omega arith)
  handle-min_role env user (Request.delete_source name) srv = inr (omega arith)
  handle-min_role env user Request.list_destinations srv = inl (refl, refl)
  handle-min_role env user (Request.create_destination body) srv = inr (omega arith)
  handle-min_role env user (Request.get_destination name) srv = inl (refl, refl)
  handle-min_role env user (Request.update_destination name body) srv = inr (omega arith)
  handle-min_role env user (Request.delete_destination name) srv = inr (omega arith)
  handle-min_role env user (Request.relay body origin) srv =
      let kept = handle_relay-Keeps st builder client body origin srv in inl (kept.0, kept.1)

  -- the keys that withAuth finds in a store
  abbrev pub keys_in : S → Text → Option (String × String)
  keys_in s h = known_key (st.lookup_api_key h s)

  -- Someone with at least the role of a publisher, and that of the route, presented the header.
  abbrev pub IsAllowed : Environment → Text → Request → Server S C → Type 0
  IsAllowed env header req srv =
      (user : String) × (role : String) × IsAuthorized env.keys.hash (keys_in srv.store)
        (min_role req) header user role
      × (1 ≤ role_level role)

  after_auth-IsAllowed :
      (env : Environment) (header : Text) (req : Request) (srv : Server S C) (a : Access)
      → with_auth env.keys.hash (keys_in srv.store) (min_role req) header ≡ a
      → (KeepsStore srv (after_auth st builder client env a req srv).1 → ⊥)
      → IsAllowed env header req srv
  unfolding after_auth
  after_auth-IsAllowed env header req srv missing_token is_a changed = absurd (changed (refl, refl))
  after_auth-IsAllowed env header req srv invalid_key is_a changed = absurd (changed (refl, refl))
  after_auth-IsAllowed env header req srv (forbidden role) is_a changed =
      absurd (changed (refl, refl))
  after_auth-IsAllowed env header req srv (served user role) is_a changed =
      let allowed =
        (with_auth-IsAuthorized env.keys.hash (keys_in srv.store) (min_role req) header user role).0
          is_a in
      elim (handle-min_role env user req srv) [
        | inl same ↦ absurd (changed same)
        | inr level ↦ (user, role, allowed, omega (arith, level, allowed.enough))
      ]

  -- A request to a route behind withAuth, the relay included, changes the store or the toggle
  -- of the hooks only when its header bears the token of a known key whose role is at least the
  -- one of the route, and is publisher or admin.
  pub serve-IsAllowed :
      (env : Environment) (header : Text) (req : Request) (srv : Server S C)
      → (KeepsStore srv (serve st builder client env header req srv).1 → ⊥)
      → IsAllowed env header req srv
  unfolding serve
  serve-IsAllowed env header req srv changed =
      after_auth-IsAllowed env header req srv
        (with_auth env.keys.hash (keys_in srv.store) (min_role req) header) refl changed

  -- the token is the one of an admin
  abbrev pub IsAdminToken : Environment → Server S C → Text → Type 0
  IsAdminToken env srv token =
      (token ≢ [])
      × ((user : String) × (role : String) × (st.lookup_api_key (env.keys.hash token) srv.store
            ≡ reply (user, role))
          × (2 ≤ role_level role))

  token_error-zero :
      (env : Environment) (srv : Server S C) (token : Text)
      → token_error st env.keys token srv.store ≡ 0
      → IsAdminToken env srv token
  unfolding token_error
  token_error-zero env srv [] h = cc
  token_error-zero env srv (c ∷ token) h =
      ((λ e. cc), admin_error-zero (st.lookup_api_key (env.keys.hash (c ∷ token)) srv.store) h)

  bootstrap_error-zero :
      (env : Environment) (header : Text) (srv : Server S C) (r : Reply ℕ)
      → bootstrap_error st env.keys header srv.store r ≡ 0
      → (r ≡ reply 0) ⊎ IsAdminToken env srv (extract_bearer header)
  unfolding bootstrap_error
  bootstrap_error-zero env header srv (reply zero) h = inl refl
  bootstrap_error-zero env header srv (reply (suc n)) h =
      inr (token_error-zero env srv (extract_bearer header) h)
  bootstrap_error-zero env header srv missing h = cc
  bootstrap_error-zero env header srv (failed stage) h = cc

  behind_gate-zero :
      (env : Environment) (body : Option KeyRequest) (srv : Server S C) (gate : ℕ)
      → (writes st builder client srv (behind_gate st gate env.keys body srv.store)).1 ≢ srv
      → gate ≡ 0
  unfolding behind_gate
  behind_gate-zero env body srv zero changed = refl
  behind_gate-zero env body srv (suc n) changed = absurd (changed refl)

  -- A request for a new key changes the server only when the store says that it has no key yet, or
  -- when its header bears a token that is not empty and is the one of a key with the role admin.
  pub serve_new_key-IsAdmin :
      (env : Environment) (header : Text) (body : Option KeyRequest) (srv : Server S C)
      → (serve_new_key st builder client env header body srv).1 ≢ srv
      → (st.count_api_keys srv.store ≡ reply 0) ⊎ IsAdminToken env srv (extract_bearer header)
  unfolding serve_new_key handle_create_api_key
  serve_new_key-IsAdmin env header body srv changed =
      let count = st.count_api_keys srv.store in
      bootstrap_error-zero env header srv count
        (behind_gate-zero env body srv (bootstrap_error st env.keys header srv.store count) changed)
