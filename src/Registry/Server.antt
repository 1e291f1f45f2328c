-- ===== src/Registry/Server.antt =====
-- The gates of the registry server: withAuth of registry/server/auth.go with RoleLevel of
-- registry/server/shared/types.go, and the event patterns of a source,
-- registry/server/handlers_events.go. The hash of a key and the table of keys are arguments.
pub mod Authorized
pub mod Api
pub mod Events
pub mod Entities
pub mod Admin
pub mod Sql
pub mod State
pub mod Context
pub mod Routes
pub mod Relay
pub mod Patterns
use event_spec.Prelude.{
  ℕ, Bool, true, false, ◌&&◌, ◌||◌, Option, none, some, List, [], ◌∷◌, ◌++◌, String, Text, codes,
  eqb, ltb, text_eq, any, if◌then◌else◌, ◌==◌,
}

-- func RoleLevel
unfoldable pub role_level : String → ℕ
role_level role = if role == "admin" then 2 else if role == "publisher" then 1 else 0

-- strings.TrimPrefix of a prefix that is there
unfoldable pub without_prefix : Text → Text → Option Text
without_prefix [] s = some s
without_prefix (c ∷ prefix) [] = none
without_prefix (c ∷ prefix) (d ∷ s) =
    let rest = without_prefix prefix s in if eqb c d then rest else none

unfoldable pub or_empty_text : Option Text → Text
or_empty_text none = []
or_empty_text (some s) = s

-- func extractBearer, of the Authorization header
unfoldable pub extract_bearer : Text → Text
extract_bearer header = or_empty_text (without_prefix (codes "Bearer ") header)

-- What a request gets: an error response, or the handler, with a user and a role.
pub data Access : Type 0 where
  missing_token : Access
  invalid_key : Access
  forbidden : String → Access
  served : String → String → Access

unfoldable pub check_role : String → Option (String × String) → Access
check_role min_role none = invalid_key
check_role min_role (some (user, role)) =
    if ltb (role_level role) (role_level min_role) then forbidden min_role else served user role

unfoldable pub check_token :
    (Text → Text) → (Text → Option (String × String)) → String → Text → Access
check_token hash keys min_role [] = missing_token
check_token hash keys min_role (c ∷ token) = check_role min_role (keys (hash (c ∷ token)))

-- func (s *Server) withAuth
unfoldable pub with_auth :
    (Text → Text) → (Text → Option (String × String)) → String → Text → Access
with_auth hash keys min_role header = check_token hash keys min_role (extract_bearer header)

-- strings.TrimSuffix of a suffix that is there
unfoldable pub without_suffix : Text → Text → Option Text
without_suffix suffix [] = if text_eq [] suffix then some [] else none
without_suffix suffix (c ∷ s) =
    let rest = without_suffix suffix s in
    if text_eq (c ∷ s) suffix then some [] else elim rest [ none ↦ none | some t ↦ some (c ∷ t) ]

abbrev pub is_there : Option Text → Bool
is_there none = false
is_there (some s) = true

unfoldable pub match_prefix : Text → Text → Option Text → Bool
match_prefix pattern target none = text_eq pattern target
match_prefix pattern target (some prefix) =
    is_there (without_prefix (prefix ++ (b'/' ∷ [])) target) || text_eq target prefix

-- func matchGlob
unfoldable pub match_glob : Text → Text → Bool
match_glob pattern target = match_prefix pattern target (without_suffix (codes "/**") pattern)

-- func sourceIncludesEvent
unfoldable pub source_includes_event : List Text → Text → Text → Bool
source_includes_event patterns namespace name =
    any (λ p. match_glob p (namespace ++ (b'/' ∷ name))) patterns
