-- ===== src/Spec/Secrets/Same.antt =====
-- The two ways to resolve a credential agree.
use event_spec.Prelude.{
  ◌≡◌, ◌≢◌, refl, some, [], ◌∷◌, ◌++◌, String, Text, arith, eq_iff, text_eq_iff,
}
use event_spec.Spec.Secrets.{
  Environment, resolved, before_brace, or_whole, variable_name, from_variable, resolve_secret,
  resolve_api_key,
}

-- Both packages resolve a credential alike, errors included, unless its type is "vault", which only
-- the package provider knows.
pub resolve_api_key-resolve_secret :
    (env : Environment) (value : Text) (type : String)
    → type ≢ "vault"
    → resolve_api_key env value type ≡ resolve_secret env value type
unfolding resolve_api_key resolve_secret
resolve_api_key-resolve_secret env value type other = ground (arith, eq_iff type "vault", other)

before_brace-append : (name : Text) → before_brace (name ++ (b'}' ∷ [])) ≡ some name
unfolding before_brace
before_brace-append [] = refl
before_brace-append (c ∷ []) = refl
before_brace-append (c ∷ d ∷ name) = rw (before_brace-append (d ∷ name)) refl

-- A reference "${NAME}" and the plain NAME, when it has no such form itself, name the same variable,
-- and its value is the secret unless it is empty.
pub resolve_secret-reference :
    (env : Environment) (name : Text)
    → variable_name name ≡ name
    → env.variable name ≢ []
    → (resolve_secret env (b'$' ∷ b'{' ∷ (name ++ (b'}' ∷ []))) "env_var"
        ≡ resolved (env.variable name))
      × (resolve_secret env name "env_var" ≡ resolved (env.variable name))
unfolding resolve_secret variable_name from_variable or_whole
resolve_secret-reference env name plain set =
    rw (before_brace-append name, plain) (ground (arith, text_eq_iff (env.variable name) [], set))
