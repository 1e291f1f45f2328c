-- ===== src/Examples/Diffs.antt =====
-- Differences between two versions of a spec, and the checks of a spec.
use event_spec.Spec.JsonSchema.{build_json_schema}
use event_spec.Spec.JsonSchema.Required.{IsRequired, schema_of, build_json_schema-IsRequired}
use event_spec.Prelude.{
  Elem, lookup, ◌≡◌, ◌↔◌, ◌<◌, ◌⊎◌, refl, none, some, [], ◌∷◌, String, Map, Text, codes, true,
  false, any, text_eq, has_key, IsMap, arith, inl,
}
use event_spec.Prelude.Int.{pos, ltb_ℤ}
use event_spec.Spec.Schema.{Float64, float_one, EventDef, PropertyDef, ProviderOverride}
use event_spec.Spec.Version.{ok, parse_schema_ver}
use event_spec.Spec.Diff.{diff}
use event_spec.Spec.Diff.Kept.{has_breaking}
use event_spec.Spec.Diff.Breaking.{Compatible, diff-Compatible}
use event_spec.Spec.Diff.Same.{AreMaps}
use event_spec.Spec.Bump.{declared_level, validate_version_bump}
use event_spec.Spec.Bump.Laws.{validate_version_bump-none, max_level_from-le}
use event_spec.Spec.Bump.Major.{accepted-Compatible}
use event_spec.Spec.Validator.{
  validate_event_def, report, check_version, check_required_name, is_one_of, check_properties,
  check_sampling, is_outside,
}
use event_spec.Spec.Validator.Valid.{IsValidEvent, validate_event_def-IsValidEvent}

abbrev text_property : PropertyDef
text_property = record {
  type = "string";
  required = false;
  description = "";
  enum = "free" ∷ "paid" ∷ [];
  pattern = "";
  minimum = none;
  maximum = none;
  default = none;
  aliases = [];
}

abbrev renames : Map ProviderOverride
renames =
    ("amplitude", record { event_name = "Purchase"; property_map = ("sum", "total") ∷ [] }) ∷ []

abbrev order_placed : Text → Map PropertyDef → EventDef
order_placed version properties = record {
  schema = "";
  name = "order_placed";
  display_name = "";
  description = "";
  version = version;
  changelog = "";
  status = "active";
  namespace = "shop";
  tags = [];
  owner = "";
  type = "track";
  event_name = "Order Placed";
  required = true;
  properties = properties;
  context_properties = [];
  provider_overrides = renames;
  destinations = "amplitude" ∷ [];
  sampling = some (record { strategy = "user_id_hash"; rate = float_one });
  property_priority = "";
  source_path = "";
}

abbrev pub v1 : EventDef
v1 = order_placed (codes "1-0-0") (("plan", text_property) ∷ [])

-- `plan` is required now, and there is a new property.
abbrev pub v2 : EventDef
v2 =
    order_placed (codes "2-0-0")
      (("plan", record text_property { required = true }) ∷ ("coupon", text_property) ∷ [])

abbrev no_rates : Float64 → String
no_rates r = ""

diff-Compatible_example : (has_breaking (diff no_rates v1 v2) ≡ false) ↔ Compatible v1 v2
diff-Compatible_example = diff-Compatible no_rates v1 v2

reads_v1 :
    parse_schema_ver v1.version
    ≡ ok (record { major = pos 1; minor = pos 0; patch = pos 0; raw = codes "1-0-0" })
unfolding parse_schema_ver
reads_v1 = refl

reads_v2 :
    parse_schema_ver v2.version
    ≡ ok (record { major = pos 2; minor = pos 0; patch = pos 0; raw = codes "2-0-0" })
unfolding parse_schema_ver
reads_v2 = refl

accepted_v2 : validate_version_bump v1 v2 (diff no_rates v1 v2) ≡ none
unfolding declared_level ltb_ℤ
accepted_v2 =
    (validate_version_bump-none v1 v2 (diff no_rates v1 v2) reads_v1 reads_v2).1
      (inl (omega arith), max_level_from-le (diff no_rates v1 v2) 0 (omega arith))

accepted-Compatible_example : Compatible v1 v2 ⊎ (1 < 2)
accepted-Compatible_example = accepted-Compatible no_rates v1 v2 reads_v1 reads_v2 accepted_v2

maps_v1 : IsMap v1.provider_overrides × AreMaps v1.provider_overrides
unfolding has_key
maps_v1 = ((refl, tt), ((refl, tt), tt))

validate_event_def-IsValidEvent_example : (validate_event_def v1 ≡ []) ↔ IsValidEvent v1
validate_event_def-IsValidEvent_example = validate_event_def-IsValidEvent v1

-- The checks have nothing to report of the first version.
v1_is_valid : validate_event_def v1 ≡ []
unfolding validate_event_def report text_eq check_version parse_schema_ver check_required_name
    is_one_of any check_properties check_sampling is_outside ltb_ℤ float_one
v1_is_valid = refl

properties-IsMap : IsMap v2.properties
unfolding has_key
properties-IsMap = (refl, (refl, tt))

build_json_schema-IsRequired_example :
    (Elem "plan" (build_json_schema v2).required ↔ IsRequired "plan" v2.properties)
    × (lookup "plan" (build_json_schema v2).properties ≡ schema_of (lookup "plan" v2.properties))
build_json_schema-IsRequired_example = build_json_schema-IsRequired v2 "plan" properties-IsMap
