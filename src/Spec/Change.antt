-- ===== src/Spec/Change.antt =====
-- The changes that Diff reports (spec/diff.go).
use event_spec.Prelude.{Bool, String}

-- type ChangeKind
pub data ChangeKind : Type 0 where
  add_required_prop remove_prop rename_prop type_changed make_required : ChangeKind
  remove_enum_value rename_event event_type_changed status_changed : ChangeKind
  sampling_modified context_props_modified provider_overrides_modified : ChangeKind
  make_optional add_optional_prop add_enum_value description_only : ChangeKind
  metadata_only destinations_modified property_priority_changed : ChangeKind

-- type Change
pub record Change : Type 0 where
  pub kind : ChangeKind
  pub property : String
  pub breaking : Bool
  pub from : String
  pub to : String
  pub suggestion : String

-- The fields that a literal leaves out are empty.
abbrev pub change : ChangeKind → String → Bool → String → String → Change
change k p b f t = record {
  kind = k;
  property = p;
  breaking = b;
  from = f;
  to = t;
  suggestion = "";
}
