-- ===== src/Spec/Bump/Major.antt =====
-- A version with a breaking change is accepted only with a larger MAJOR number.
use event_spec.Prelude.{
  ℕ, ◌<◌, ◌≤◌, ◌≡◌, true, List, [], ◌∷◌, none, arith, ltb, any, if◌then◌else◌, Bool-cases, inl, inr,
  ◌⊎◌,
}
use event_spec.Prelude.Int.{pos_part}
use event_spec.Spec.Schema.{Float64, EventDef}
use event_spec.Spec.Change.{Change}
use event_spec.Spec.Version.{SchemaVer, ok, parse_schema_ver}
use event_spec.Spec.Version.RoundTrip.{parse-IsVersion}
use event_spec.Spec.Diff.{diff}
use event_spec.Spec.Diff.Kept.{has_breaking}
use event_spec.Spec.Diff.Breaking.{Compatible, diff-Compatible}
use event_spec.Spec.Bump.{change_bump_level, max_level_from, validate_version_bump}
use event_spec.Spec.Bump.Laws.{declared_level-natural, validate_version_bump-none}
use event_spec.Prelude.{String}

le-max_level_from : (changes : List Change) (level : ℕ) → level ≤ max_level_from changes level
unfolding max_level_from
le-max_level_from [] level = omega arith
le-max_level_from (c ∷ changes) level = ground (
  arith,
  le-max_level_from changes
      (if ltb level (change_bump_level c) then change_bump_level c else level),
)

has_breaking-level :
    (changes : List Change) (level : ℕ)
    → has_breaking changes ≡ true
    → 2 ≤ max_level_from changes level
unfolding has_breaking any max_level_from
has_breaking-level [] level h = cc
has_breaking-level (c ∷ changes) level h = elim (Bool-cases c.breaking) [
  | inl breaks ↦
      unfold change_bump_level in
      ground (
        arith,
        breaks,
        le-max_level_from changes
            (if ltb level (change_bump_level c) then change_bump_level c else level),
      )
  | inr keeps ↦ has_breaking-level changes _ (rw keeps at h)
]

-- ValidateVersionBump accepts the changes that Diff finds only if the newer version is compatible
-- or has a larger MAJOR number.
pub accepted-Compatible :
    (show_rate : Float64 → String) (from to : EventDef) {v w : SchemaVer}
    → parse_schema_ver from.version ≡ ok v
    → parse_schema_ver to.version ≡ ok w
    → validate_version_bump from to (diff show_rate from to) ≡ none
    → Compatible from to ⊎ (pos_part v.major < pos_part w.major)
accepted-Compatible show_rate from to {v} {w} pv pw accepted =
    let changes = diff show_rate from to in
    let (_, enough) = (validate_version_bump-none from to changes pv pw).0 accepted in
    elim (Bool-cases (has_breaking changes)) [
      | inl breaks ↦ inr (
          ground (
            arith,
            enough,
            has_breaking-level changes 0 breaks,
            declared_level-natural v w (parse-IsVersion from.version pv).0
                (parse-IsVersion to.version pw).0,
          ))
      | inr keeps ↦ inl ((diff-Compatible show_rate from to).0 keeps)
    ]
