-- ===== src/Spec/Bump.antt =====
-- The version that the changes between two versions call for (spec/diff.go).
pub mod Laws
pub mod Major
use event_spec.Prelude.{ℕ, Option, none, some, List, [], ◌∷◌, Text, ltb, if◌then◌else◌, not}
use event_spec.Prelude.Int.{ℤ, pos, ◌+ℤ◌, ltb_ℤ}
use event_spec.Spec.Schema.{EventDef}
use event_spec.Spec.Change.{
  ChangeKind, Change, description_only, metadata_only, destinations_modified,
  property_priority_changed,
}
use event_spec.Spec.Version.{
  SchemaVer, VersionError, Parsed, ok, err, parse_schema_ver, compare_schema_ver, version_text,
}

-- 0 for the kinds that are a PATCH, 1 for the others
kind_level : ChangeKind → ℕ
kind_level description_only = 0
kind_level metadata_only = 0
kind_level destinations_modified = 0
kind_level property_priority_changed = 0
kind_level kind = 1

-- func changeBumpLevel
unfoldable pub change_bump_level : Change → ℕ
unfolding kind_level
change_bump_level c = if c.breaking then 2 else kind_level c.kind

-- The loop `if l := changeBumpLevel(c); l > maxLevel { maxLevel = l }`.
unfoldable pub max_level_from : List Change → ℕ → ℕ
max_level_from [] level = level
max_level_from (c ∷ changes) level =
    max_level_from changes (if ltb level (change_bump_level c) then change_bump_level c else level)

abbrev pub max_level : List Change → ℕ
max_level changes = max_level_from changes 0

bumped : ℤ → ℤ → ℤ → SchemaVer
bumped a b c = record { major = a; minor = b; patch = c; raw = version_text a b c }

-- the `switch` of SuggestVersion; no changes at all call for a patch, as level 0 does
suggest : SchemaVer → ℕ → SchemaVer
unfolding bumped
suggest from level =
    if ltb 2 level
    then bumped from.major from.minor (from.patch +ℤ pos 1)
    else if ltb 1 level
    then bumped (from.major +ℤ pos 1) (pos 0) (pos 0)
    else if ltb 0 level
    then bumped from.major (from.minor +ℤ pos 1) (pos 0)
    else bumped from.major from.minor (from.patch +ℤ pos 1)

-- func SuggestVersion
unfoldable pub suggest_version : SchemaVer → List Change → SchemaVer
unfolding suggest
suggest_version from [] = bumped from.major from.minor (from.patch +ℤ pos 1)
suggest_version from (c ∷ changes) = suggest from (max_level (c ∷ changes))

-- The errors of ValidateVersionBump, with what their messages report.
pub data BumpError : Type 0 where
  invalid_from : VersionError → BumpError
  invalid_to : VersionError → BumpError
  not_increasing : BumpError
  insufficient : ℕ → ℕ → Text → BumpError

-- the level of the jump between two versions
unfoldable pub declared_level : SchemaVer → SchemaVer → ℕ
declared_level from to =
    if ltb_ℤ from.major to.major then 2 else if ltb_ℤ from.minor to.minor then 1 else 0

check_level : SchemaVer → SchemaVer → List Change → Option BumpError
check_level from to [] = none
check_level from to (c ∷ changes) =
    if ltb (declared_level from to) (max_level (c ∷ changes))
    then some (
        insufficient (declared_level from to) (max_level (c ∷ changes))
          (suggest_version from (c ∷ changes)).raw)
    else none

check_bump : SchemaVer → SchemaVer → List Change → Option BumpError
unfolding check_level
check_bump from to changes =
    if not (ltb_ℤ (pos 0) (compare_schema_ver to from))
    then some not_increasing
    else check_level from to changes

check_parsed : Parsed → Parsed → List Change → Option BumpError
unfolding check_bump
check_parsed (err e) to changes = some (invalid_from e)
check_parsed (ok from) (err e) changes = some (invalid_to e)
check_parsed (ok from) (ok to) changes = check_bump from to changes

-- func ValidateVersionBump: `none` is no error
unfoldable pub validate_version_bump : EventDef → EventDef → List Change → Option BumpError
unfolding check_parsed
validate_version_bump from to changes =
    check_parsed (parse_schema_ver from.version) (parse_schema_ver to.version) changes
