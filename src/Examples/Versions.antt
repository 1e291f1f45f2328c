-- ===== src/Examples/Versions.antt =====
-- Versions and version jumps.
use event_spec.Prelude.{◌≡◌, refl, none, List, [], ◌∷◌, Text, codes, arith, true, false, ◌≤◌, ◌↔◌}
use event_spec.Prelude.Int.{pos, negsuc, ltb_ℤ, eq_ℤ, ◌-ℤ◌, ◌+ℤ◌}
use event_spec.Spec.Change.{Change, change, add_optional_prop}
use event_spec.Spec.Schema.{EventDef}
use event_spec.Spec.Version.{
  SchemaVer, ok, parse_schema_ver, compare_schema_ver, version_text, signum,
}
use event_spec.Spec.Version.RoundTrip.{IsVersion, parse-IsVersion, parse-version_text}
use event_spec.Spec.Version.Order.{Less, SameNumbers, compare-Less}
use event_spec.Spec.Bump.{
  max_level, max_level_from, change_bump_level, declared_level, suggest_version,
  validate_version_bump,
}
use event_spec.Spec.Bump.Laws.{
  HasRoom, validate_version_bump-none, validate-suggest_version, suggest_version-least,
}

abbrev v1_2_0 : SchemaVer
v1_2_0 = record { major = pos 1; minor = pos 2; patch = pos 0; raw = codes "1-2-0" }

abbrev v1_3_0 : SchemaVer
v1_3_0 = record { major = pos 1; minor = pos 3; patch = pos 0; raw = codes "1-3-0" }

reads_1_2_0 : parse_schema_ver (codes "1-2-0") ≡ ok v1_2_0
unfolding parse_schema_ver
reads_1_2_0 = refl

reads_1_3_0 : parse_schema_ver (codes "1-3-0") ≡ ok v1_3_0
unfolding parse_schema_ver
reads_1_3_0 = refl

abbrev signup : Text → EventDef
signup version = record {
  schema = "";
  name = "signed_up";
  display_name = "";
  description = "";
  version = version;
  changelog = "";
  status = "active";
  namespace = "user";
  tags = [];
  owner = "";
  type = "track";
  event_name = "Signed Up";
  required = true;
  properties = [];
  context_properties = [];
  provider_overrides = [];
  destinations = [];
  sampling = none;
  property_priority = "";
  source_path = "";
}

abbrev one_addition : List Change
one_addition = change add_optional_prop "plan" false "" "" ∷ []

room_1_2_0 : HasRoom v1_2_0
room_1_2_0 = record { major_room = omega arith; minor_room = omega arith; patch_room = omega arith }

natural_1_2_0 : IsVersion v1_2_0
natural_1_2_0 = (parse-IsVersion (codes "1-2-0") reads_1_2_0).0

natural_1_3_0 : IsVersion v1_3_0
natural_1_3_0 = (parse-IsVersion (codes "1-3-0") reads_1_3_0).0

-- 1-3-0 is a MINOR jump, which an added optional property calls for.
accepted_1_3_0 :
    validate_version_bump (signup (codes "1-2-0")) (signup (codes "1-3-0")) one_addition ≡ none
unfolding validate_version_bump parse_schema_ver ltb_ℤ compare_schema_ver eq_ℤ signum ◌-ℤ◌
    declared_level max_level_from change_bump_level
accepted_1_3_0 = refl

validate_version_bump-none_example :
    (validate_version_bump (signup (codes "1-2-0")) (signup (codes "1-3-0")) one_addition ≡ none)
    ↔ (Less v1_2_0 v1_3_0 × (max_level one_addition ≤ declared_level v1_2_0 v1_3_0))
validate_version_bump-none_example =
    validate_version_bump-none (signup (codes "1-2-0")) (signup (codes "1-3-0")) one_addition
      reads_1_2_0 reads_1_3_0

suggested : codes "1-3-0" ≡ (suggest_version v1_2_0 one_addition).raw
unfolding suggest_version max_level_from change_bump_level version_text ◌+ℤ◌
suggested = refl

validate-suggest_version_example :
    validate_version_bump (signup (codes "1-2-0")) (signup (codes "1-3-0")) one_addition ≡ none
validate-suggest_version_example =
    validate-suggest_version (signup (codes "1-2-0")) (signup (codes "1-3-0")) one_addition
      reads_1_2_0 room_1_2_0 suggested

suggest_version-least_example : ¬ Less v1_3_0 (suggest_version v1_2_0 one_addition)
suggest_version-least_example =
    suggest_version-least (signup (codes "1-2-0")) (signup (codes "1-3-0")) one_addition reads_1_2_0
      room_1_2_0 reads_1_3_0 accepted_1_3_0

parse-version_text_example :
    parse_schema_ver (version_text (pos 10) (pos 2) (pos 305))
    ≡ ok (record {
      major = pos 10;
      minor = pos 2;
      patch = pos 305;
      raw = version_text (pos 10) (pos 2) (pos 305);
    })
parse-version_text_example = parse-version_text 10 2 305 (omega arith) (omega arith) (omega arith)

compare-Less_example :
    ((compare_schema_ver v1_2_0 v1_3_0 ≡ negsuc 0) ↔ Less v1_2_0 v1_3_0)
    × ((compare_schema_ver v1_2_0 v1_3_0 ≡ pos 1) ↔ Less v1_3_0 v1_2_0)
    × ((compare_schema_ver v1_2_0 v1_3_0 ≡ pos 0) ↔ SameNumbers v1_2_0 v1_3_0)
compare-Less_example = compare-Less v1_2_0 v1_3_0 natural_1_2_0 natural_1_3_0
