-- ===== src/Registry/Git.antt =====
-- The git registry, registry/git/resolver.go: its configuration, the names it takes for refs, the
-- arguments of its commands and the environment of git. Texts are lists of code points.
pub mod Resolve
pub mod Pull
pub mod Scrubbed
use event_spec.Prelude.{
  Bool, true, false, not, ◌&&◌, ◌||◌, List, [], ◌∷◌, ◌++◌, Option, none, some, String, Text, codes,
  any, all, eqb, leb, ltb, text_eq, keep, length, if◌then◌else◌, ℕ,
}
use event_spec.Registry.Server.{without_prefix, is_there}

-- type Config; the two local directories only pass through
pub record Config : Type 0 where
  pub remote : Text
  pub branch : Text
  pub ref : Text
  pub cache_dir : Text
  pub specs_dir : Text
  pub force : Bool

unfoldable pub or_text : Text → Text → Text
or_text [] fallback = fallback
or_text (c ∷ s) fallback = c ∷ s

-- func (c Config) branch
unfoldable pub tracked_branch : Config → Text
tracked_branch cfg = or_text cfg.branch (codes "main")

-- func (c Config) specsDir
unfoldable pub specs_directory : Config → Text
specs_directory cfg = or_text cfg.specs_dir (codes "specs")

unfoldable pub has_prefix : Text → Text → Bool
has_prefix prefix s = is_there (without_prefix prefix s)

-- one of the characters of revExprRe: white space, and ~ ^ : ? * [ \
unfoldable pub is_revision_char : ℕ → Bool
is_revision_char c = any (eqb c) (9 ∷ 10 ∷ 12 ∷ 13 ∷ codes " ~^:?*[\\")

-- one of the pairs of revExprRe: ".." and "@{"
unfoldable pub has_pair : ℕ → ℕ → Text → Bool
has_pair a b [] = false
has_pair a b (c ∷ s) =
    let rest = has_pair a b s in if has_prefix (a ∷ b ∷ []) (c ∷ s) then true else rest

-- revExprRe
unfoldable pub is_revision_expression : Text → Bool
is_revision_expression s =
    any is_revision_char s
    || (has_pair b'.' b'.' s || (has_pair b'@' b'{' s || has_prefix (codes "-") s))

-- The shapes that checkRefName refuses.
pub data Refused : Type 0 where
  leading_dash revision_syntax head_name refs_prefix : Refused

-- func checkRefName; `none` accepts
unfoldable pub check_ref_name : Text → Option Refused
check_ref_name value =
    if text_eq value []
    then none
    else if has_prefix (codes "-") value
    then some leading_dash
    else if is_revision_expression value
    then some revision_syntax
    else if text_eq value (codes "HEAD")
    then some head_name
    else if has_prefix (codes "refs/") value
    then some refs_prefix
    else none

unfoldable pub first_refusal : Option Refused → Option Refused → Option Refused
first_refusal none second = second
first_refusal (some r) second = some r

-- func checkRefs
unfoldable pub check_refs : Config → Option Refused
check_refs cfg = first_refusal (check_ref_name cfg.ref) (check_ref_name cfg.branch)

-- func cloneArgs
unfoldable pub clone_args : Config → Text → List Text
clone_args cfg cache_dir =
    (codes "clone")
    ∷ ((if text_eq cfg.ref [] then codes "--depth" ∷ codes "1" ∷ [] else [])
        ++ (codes "--branch" ∷ tracked_branch cfg ∷ cfg.remote ∷ cache_dir ∷ []))

-- a hexadecimal digit, in either case
unfoldable pub is_hex : ℕ → Bool
is_hex c = (leb b'0' c && leb c b'9') || ((leb b'a' c && leb c b'f') || (leb b'A' c && leb c b'F'))

-- shaRe
unfoldable pub is_sha : Text → Bool
is_sha s = leb 7 (length s) && (leb (length s) 40 && all is_hex s)

-- the capital letter, as far as it is one of "GIT_"; U+0131 is a small i without a dot
unfoldable pub capital : ℕ → ℕ
capital c =
    if eqb c b'g'
    then b'G'
    else if eqb c b'i' || eqb c 305
    then b'I'
    else if eqb c b't'
    then b'T'
    else c

unfoldable pub capitals : Text → Text
capitals [] = []
capitals (c ∷ s) = capital c ∷ capitals s

-- strings.Cut at "=", the part before it
unfoldable pub key_of : Text → Option Text
key_of [] = none
key_of (c ∷ s) =
    let rest = key_of s in
    if eqb c b'=' then some [] else elim rest [ none ↦ none | some k ↦ some (c ∷ k) ]

unfoldable pub is_git_key : Option Text → Bool
is_git_key none = false
is_git_key (some k) = has_prefix (codes "GIT_") (capitals k)

-- the two variables that gitEnv adds
abbrev pub added_vars : List Text
added_vars = codes "GIT_TERMINAL_PROMPT=0" ∷ codes "GIT_ALLOW_PROTOCOL=file:git:http:https:ssh" ∷ []

-- func gitEnv, of the environment of the process
unfoldable pub git_env : List Text → List Text
git_env base = keep (λ kv. not (is_git_key (key_of kv))) base ++ added_vars
