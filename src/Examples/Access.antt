-- ===== src/Examples/Access.antt =====
-- Credentials, keys and patterns.
use event_spec.Prelude.{
  ◌≡◌, ◌≢◌, ◌↔◌, refl, Option, none, some, [], String, Text, codes, text_eq, if◌then◌else◌,
}
use event_spec.Spec.Secrets.{Environment, variable_name}
use event_spec.Registry.Server.{served, with_auth}
use event_spec.Registry.Server.Authorized.{IsAuthorized, with_auth-IsAuthorized}

-- One variable, API_KEY, and no file.
abbrev one_variable : Environment
one_variable = record {
  variable = λ name. if text_eq name (codes "API_KEY") then codes "secret" else [];
  file = λ path. none;
  trim_space = λ s. s;
}

plain_name : variable_name (codes "API_KEY") ≡ codes "API_KEY"
unfolding variable_name
plain_name = refl

is_set : one_variable.variable (codes "API_KEY") ≢ []
unfolding text_eq
is_set h = cc

abbrev no_hash : Text → Text
no_hash token = token

-- The token "t" is the key of a publisher.
abbrev one_key : Text → Option (String × String)
one_key hash = if text_eq hash (codes "t") then some ("ann", "publisher") else none

with_auth-IsAuthorized_example :
    (with_auth no_hash one_key "viewer" (codes "Bearer t") ≡ served "ann" "publisher")
    ↔ IsAuthorized no_hash one_key "viewer" (codes "Bearer t") "ann" "publisher"
with_auth-IsAuthorized_example =
    with_auth-IsAuthorized no_hash one_key "viewer" (codes "Bearer t") "ann" "publisher"
