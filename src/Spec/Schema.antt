-- ===== src/Spec/Schema.antt =====
-- The data of spec/schema.go. A Go string type with named constants, such as EventStatus, is a
-- string, since a file may hold any text there. A finite float64 is an integer multiple of
-- 2 ^ -1074, and is modelled by that integer. A map is the list of its entries.
use event_spec.Prelude.{Bool, Option, List, String, Text, ◌^◌, Map}
use event_spec.Prelude.Int.{ℤ, pos}
use event_spec.Prelude.Values.{Value}

abbrev pub Float64 : Type 0
Float64 = ℤ

-- 1.0
unfoldable pub float_one : Float64
float_one = pos (2 ^ 1074)

-- type PropertyDef
pub record PropertyDef : Type 0 where
  pub type : String
  pub required : Bool
  pub description : String
  pub enum : List String
  pub pattern : String
  pub minimum : Option Float64
  pub maximum : Option Float64
  pub default : Option Value
  pub aliases : List String

-- type ProviderOverride
pub record ProviderOverride : Type 0 where
  pub event_name : String
  pub property_map : Map String

-- type SamplingConfig
pub record SamplingConfig : Type 0 where
  pub strategy : String
  pub rate : Float64

-- type EventDef
pub record EventDef : Type 0 where
  pub schema : String
  pub name : String
  pub display_name : String
  pub description : String
  pub version : Text
  pub changelog : String
  pub status : String
  pub namespace : String
  pub tags : List String
  pub owner : String
  pub type : String
  pub event_name : String
  pub required : Bool
  pub properties : Map PropertyDef
  pub context_properties : List String
  pub provider_overrides : Map ProviderOverride
  pub destinations : List String
  pub sampling : Option SamplingConfig
  pub property_priority : String
  pub source_path : String
