-- ===== src/Examples/Registries.antt =====
-- The registries.
use event_spec.Prelude.{
  ◌≡◌, ◌≢◌, refl, some, List, [], ◌∷◌, ◌++◌, codes, true, false, any, All, Elem, text_eq,
  text_eq_iff,
}
use event_spec.Spec.Schema.{EventDef}
use event_spec.Spec.Version.{SchemaVer, ok, parse_schema_ver}
use event_spec.Registry.Latest.{same_event, deduplicate_by_latest}
use event_spec.Registry.Latest.Unique.{IsLatest, AreUnique, deduplicate_by_latest-IsLatest}
use event_spec.Registry.Local.{
  ListFilter, Index, found, matches, event_key, events_of, list_events, get_event, reload,
}
use event_spec.Registry.Local.Listing.{IsLatestMatch, list_events-IsLatestMatch}
use event_spec.Registry.Local.Active.{IsActiveAnswer, get_event-IsActiveAnswer}
use event_spec.Registry.Local.Lookup.{AreOthers, get_event-reload}
use event_spec.Examples.Diffs.{v1, v2}

abbrev two_versions : List EventDef
two_versions = v2 ∷ v1 ∷ []

deduplicate_by_latest-IsLatest_example :
    All (IsLatest two_versions) (deduplicate_by_latest two_versions)
    × AreUnique (deduplicate_by_latest two_versions)
    × ((e : EventDef) (v : SchemaVer)
        → Elem e two_versions
        → parse_schema_ver e.version ≡ ok v
        → any (λ s. same_event s e) (deduplicate_by_latest two_versions) ≡ true)
deduplicate_by_latest-IsLatest_example = deduplicate_by_latest-IsLatest two_versions

abbrev in_shop : ListFilter
in_shop = record { namespace = "shop"; status = "active"; tags = [] }

abbrev two_entries : Index
two_entries =
    (event_key "shop" "order_placed" (codes "1-0-0"), v1)
    ∷ (event_key "shop" "order_placed" (codes "2-0-0"), v2)
    ∷ []

list_events-IsLatestMatch_example :
    All (IsLatestMatch in_shop two_entries) (list_events in_shop two_entries)
    × AreUnique (list_events in_shop two_entries)
    × ((e : EventDef) (v : SchemaVer)
        → Elem e (events_of two_entries)
        → matches in_shop e ≡ true
        → parse_schema_ver e.version ≡ ok v
        → any (λ s. same_event s e) (list_events in_shop two_entries) ≡ true)
list_events-IsLatestMatch_example = list_events-IsLatestMatch in_shop two_entries

get_event-IsActiveAnswer_example :
    IsActiveAnswer "shop" "order_placed" two_entries
      (get_event "shop" "order_placed" [] two_entries)
get_event-IsActiveAnswer_example = get_event-IsActiveAnswer "shop" "order_placed" two_entries

versioned : v1.version ≢ []
versioned h = cc

different_key :
    text_eq
      (event_key "shop" "order_placed" (codes "2-0-0"))
      (event_key "shop" "order_placed" (codes "1-0-0"))
    ≡ false
unfolding event_key text_eq
different_key = refl

other_key : AreOthers (event_key v1.namespace v1.name v1.version) (v2 ∷ [])
other_key = (λ h. absurd cc ((text_eq_iff _ _).1 h, different_key), tt)

get_event-reload_example :
    get_event "shop" "order_placed" (codes "1-0-0") (reload (some ([] ++ (v1 ∷ v2 ∷ []))) [])
    ≡ found v1
get_event-reload_example = get_event-reload [] (v2 ∷ []) v1 [] versioned other_key
