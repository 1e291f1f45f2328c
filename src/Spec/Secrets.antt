-- ===== src/Spec/Secrets.antt =====
-- The resolution of credentials, ResolveSecret of spec/secrets.go and the one of
-- provider/transport.go. A text is the list of its code points. The environment, where a variable
-- that is not set is empty, the files and strings.TrimSpace are arguments.
pub mod Same
use event_spec.Prelude.{
  ℕ, Bool, true, false, Option, none, some, List, [], ◌∷◌, String, Text, eqb, text_eq,
  if◌then◌else◌, ◌==◌, ◌||◌,
}

-- The errors, with what their messages report.
pub data SecretError : Type 0 where
  not_set : Text → SecretError
  unreadable : Text → SecretError
  not_implemented : SecretError
  unknown_type : String → SecretError

pub data Secret : Type 0 where
  resolved : Text → Secret
  unresolved : SecretError → Secret

-- The text before a last `}`, if there is one.
unfoldable pub before_brace : Text → Option Text
before_brace [] = none
before_brace (c ∷ []) = if eqb c b'}' then some [] else none
before_brace (c ∷ d ∷ s) = elim (before_brace (d ∷ s)) [ none ↦ none | some t ↦ some (c ∷ t) ]

unfoldable pub or_whole : Text → Option Text → Text
or_whole value none = value
or_whole value (some name) = name

-- "${NAME}" or NAME
unfoldable pub variable_name : Text → Text
variable_name [] = []
variable_name (c ∷ []) = c ∷ []
variable_name (c ∷ d ∷ s) =
    if eqb c b'$'
    then (if eqb d b'{' then or_whole (c ∷ d ∷ s) (before_brace s) else c ∷ d ∷ s)
    else c ∷ d ∷ s

-- What a process sees.
pub record Environment : Type 0 where
  pub variable : Text → Text
  pub file : Text → Option Text
  pub trim_space : Text → Text

unfoldable pub from_variable : Environment → Text → Secret
from_variable env name =
    if text_eq (env.variable name) []
    then unresolved (not_set name)
    else resolved (env.variable name)

unfoldable pub from_file : Environment → Text → Option Text → Secret
from_file env path none = unresolved (unreadable path)
from_file env path (some data_) = resolved (env.trim_space data_)

-- func ResolveSecret of the package spec
unfoldable pub resolve_secret : Environment → Text → String → Secret
resolve_secret env value type =
    if (type == "") || (type == "inline")
    then resolved value
    else if type == "env_var"
    then from_variable env (variable_name value)
    else if type == "file"
    then from_file env value (env.file value)
    else unresolved (unknown_type type)

-- func ResolveSecret of the package provider
unfoldable pub resolve_api_key : Environment → Text → String → Secret
resolve_api_key env api_key type =
    if (type == "inline") || (type == "")
    then resolved api_key
    else if type == "env_var"
    then from_variable env (variable_name api_key)
    else if type == "file"
    then from_file env api_key (env.file api_key)
    else if type == "vault"
    then unresolved not_implemented
    else unresolved (unknown_type type)
