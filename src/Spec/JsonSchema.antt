-- ===== src/Spec/JsonSchema.antt =====
-- The JSON Schema of an event's properties, BuildJSONSchema of spec/validator.go. The entries of the
-- document that never change are left out: "$schema", "type" and "additionalProperties".
pub mod Required
use event_spec.Prelude.{
  Bool, true, false, not, Option, none, some, List, [], ◌∷◌, ◌++◌, String, Map, if◌then◌else◌, ◌==◌,
}
use event_spec.Prelude.Values.{Value}
use event_spec.Spec.Schema.{Float64, PropertyDef, EventDef}

-- the values of the entries of a property's schema
pub data Keyword : Type 0 where
  text : String → Keyword
  texts : List String → Keyword
  float : Float64 → Keyword
  any_value : Value → Keyword

abbrev pub text_entry : String → String → Map Keyword
text_entry key s = if not (s == "") then (key, text s) ∷ [] else []

abbrev pub enum_entry : List String → Map Keyword
enum_entry [] = []
enum_entry (v ∷ values) = ("enum", texts (v ∷ values)) ∷ []

abbrev pub float_entry : String → Option Float64 → Map Keyword
float_entry key none = []
float_entry key (some x) = (key, float x) ∷ []

abbrev pub default_entry : Option Value → Map Keyword
default_entry none = []
default_entry (some v) = ("default", any_value v) ∷ []

-- func buildPropertySchema
unfoldable pub build_property_schema : PropertyDef → Map Keyword
build_property_schema prop =
    ("type", text prop.type)
    ∷ (text_entry "description" prop.description
        ++ (enum_entry prop.enum
            ++ (text_entry "pattern" prop.pattern
                ++ (float_entry "minimum" prop.minimum
                    ++ (float_entry "maximum" prop.maximum ++ default_entry prop.default)))))

-- The document; an empty `required` is not written to it.
pub record JsonSchema : Type 0 where
  pub title : String
  pub properties : Map (Map Keyword)
  pub required : List String

unfoldable pub property_schemas : Map PropertyDef → Map (Map Keyword)
property_schemas [] = []
property_schemas ((name, prop) ∷ props) =
    (name, build_property_schema prop) ∷ property_schemas props

unfoldable pub required_names : Map PropertyDef → List String
required_names [] = []
required_names ((name, prop) ∷ props) =
    let rest = required_names props in if prop.required then name ∷ rest else rest

-- func BuildJSONSchema
unfoldable pub build_json_schema : EventDef → JsonSchema
build_json_schema def = record {
  title = def.event_name;
  properties = property_schemas def.properties;
  required = required_names def.properties;
}
