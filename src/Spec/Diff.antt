-- ===== src/Spec/Diff.antt =====
-- Diff of two versions of an event (spec/diff.go).
pub mod Kept
pub mod Props
pub mod Breaking
pub mod Same
use event_spec.Prelude.{
  Bool, true, false, not, ◌&&◌, ◌||◌, Option, none, some, List, [], ◌∷◌, ◌++◌, map, String,
  if◌then◌else◌, ◌==◌, Map, lookup,
}
use Prim.Native.String.{◌++◌ as append}
use event_spec.Spec.Status
use event_spec.Spec.Schema.{Float64, PropertyDef, SamplingConfig, EventDef}
use event_spec.Spec.Change.{
  Change, change, add_required_prop, remove_prop, rename_prop, type_changed, make_required,
  remove_enum_value, rename_event, event_type_changed, status_changed, sampling_modified,
  context_props_modified, provider_overrides_modified, make_optional, add_optional_prop,
  add_enum_value, description_only, metadata_only, destinations_modified, property_priority_changed,
}
use event_spec.Spec.Equal.{str_slice_equal, sampling_equal, provider_overrides_equal}
use event_spec.Spec.Names.{sorted_prop_keys, has, slice_diff, enum_diff}

abbrev pub when : Bool → Change → List Change
when b c = if b then c ∷ [] else []

-- strings.Join
unfoldable pub join : String → List String → String
join sep [] = ""
join sep (s ∷ []) = s
join sep (s ∷ t ∷ ts) = append s (append sep (join sep (t ∷ ts)))

unfoldable pub enum_changes : String → List String → List String → List Change → List Change
enum_changes name (r ∷ rs) added rest =
    change remove_enum_value name true (join "," (r ∷ rs)) "" ∷ []
enum_changes name [] (a ∷ more) rest =
    change add_enum_value name false "" (join "," (a ∷ more)) ∷ []
enum_changes name [] [] rest = rest

-- func diffProp: the first difference that is found hides the later ones
unfoldable pub diff_prop : String → PropertyDef → PropertyDef → List Change
diff_prop name from to =
    if not (from.type == to.type)
    then change type_changed name true from.type to.type ∷ []
    else if not from.required && to.required
    then change make_required name true "" "" ∷ []
    else if from.required && not to.required
    then change make_optional name false "" "" ∷ []
    else enum_changes name (enum_diff from.enum to.enum) (enum_diff to.enum from.enum)
        (when (not (from.description == to.description)) (change description_only name false "" ""))

-- The type of a property; a missing key reads as a PropertyDef of zero values.
abbrev pub type_of : Option PropertyDef → String
type_of none = ""
type_of (some p) = p.type

abbrev pub required_of : Option PropertyDef → Bool
required_of none = false
required_of (some p) = p.required

-- The first added property that is not taken and has the type of the removed one.
unfoldable pub rename_target : Map PropertyDef → String → List String → List String → Option String
rename_target to type taken [] = none
rename_target to type taken (a ∷ added) =
    if has a taken
    then rename_target to type taken added
    else if type == type_of (lookup a to)
    then some a
    else rename_target to type taken added

-- The rename loop of Diff: the pairs (removed, added), with the added names taken so far.
unfoldable pub rename_pairs :
    Map PropertyDef
    → Map PropertyDef
    → List String
    → List String
    → List String
    → List (String × String)
rename_pairs from to [] added taken = []
rename_pairs from to (r ∷ removed) added taken =
    elim (rename_target to (type_of (lookup r from)) taken added) [
      | none ↦ rename_pairs from to removed added taken
      | some a ↦ (r, a) ∷ rename_pairs from to removed added (a ∷ taken)
    ]

abbrev pub rename_change : String × String → Change
rename_change (r, a) = change rename_prop r true r a

abbrev pub remove_change : String → Change
remove_change name = change remove_prop name true "" ""

abbrev pub add_change : Map PropertyDef → String → Change
add_change to name =
    if required_of (lookup name to)
    then change add_required_prop name true "" ""
    else change add_optional_prop name false "" ""

unfoldable pub common_change : String → Option PropertyDef → Option PropertyDef → List Change
common_change name (some p) (some q) = diff_prop name p q
common_change name p q = []

-- the last loop of Diff, over the names of the older version
unfoldable pub common_changes : Map PropertyDef → Map PropertyDef → List String → List Change
common_changes from to [] = []
common_changes from to (name ∷ names) =
    common_change name (lookup name from) (lookup name to) ++ common_changes from to names

abbrev pub second : String × String → String
second (r, a) = a

abbrev pub first : String × String → String
first (r, a) = r

-- The part of Diff that compares the two maps of properties.
unfoldable pub prop_changes : Map PropertyDef → Map PropertyDef → List Change
prop_changes from to =
    let removed = slice_diff (sorted_prop_keys from) (sorted_prop_keys to) in
    let added = slice_diff (sorted_prop_keys to) (sorted_prop_keys from) in
    let pairs = rename_pairs from to removed added [] in
    map rename_change pairs
    ++ (map remove_change (slice_diff removed (map first pairs))
        ++ (map (add_change to) (slice_diff added (map second pairs))
            ++ common_changes from to (sorted_prop_keys from)))

unfoldable pub renamed : EventDef → EventDef → Bool
renamed from to = not (from.name == to.name) || not (from.event_name == to.event_name)

unfoldable pub metadata_changed : EventDef → EventDef → Bool
metadata_changed from to =
    not (from.description == to.description)
    || (not (renamed from to) && not (from.display_name == to.display_name))
    || not (from.owner == to.owner)
    || not (str_slice_equal from.tags to.tags)

-- fmt's %.4g on a float64 is an argument.
module _ (show_rate : Float64 → String) where
  -- func samplingStr
  unfoldable pub sampling_str : Option SamplingConfig → String
  sampling_str none = ""
  sampling_str (some s) = append s.strategy (append " @ " (show_rate s.rate))

  -- The part of Diff before the properties.
  unfoldable pub event_changes : EventDef → EventDef → List Change
  event_changes from to =
      when (renamed from to) (change rename_event "event_name" true from.event_name to.event_name)
      ++ (when (not (from.type == to.type))
            (change event_type_changed "type" true from.type to.type)
          ++ (when (not (from.status == to.status))
                (change status_changed "status" (to.status == Status.deleted) from.status to.status)
              ++ (when (not (sampling_equal from.sampling to.sampling)) (
                    change sampling_modified "sampling" false (sampling_str from.sampling)
                      (sampling_str to.sampling))
                  ++ (when (not (str_slice_equal from.context_properties to.context_properties)) (
                        change context_props_modified "context_properties" false
                          (join ", " from.context_properties) (join ", " to.context_properties))
                      ++ (when (not (str_slice_equal from.destinations to.destinations)) (
                            change destinations_modified "destinations" false
                              (join ", " from.destinations) (join ", " to.destinations))
                          ++ (when (not (from.property_priority == to.property_priority)) (
                                change property_priority_changed "property_priority" false
                                  from.property_priority to.property_priority)
                              ++ (when
                                    (not (
                                      provider_overrides_equal from.provider_overrides
                                        to.provider_overrides))
                                    (change provider_overrides_modified "provider_overrides" false
                                      "" "")
                                  ++ when (metadata_changed from to)
                                      (change metadata_only "metadata" false "" ""))))))))

  -- func Diff
  unfoldable pub diff : EventDef → EventDef → List Change
  diff from to = event_changes from to ++ prop_changes from.properties to.properties
