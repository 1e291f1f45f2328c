-- ===== src/Registry/Latest.antt =====
-- The newest version of each event, DeduplicateByLatest of registry/registry.go. The maps `best` and
-- `bestVer` have the same keys, the namespace and the name of the event that `best` holds, and are
-- one list of entries here.
pub mod Order
pub mod Entries
pub mod Newest
pub mod Unique
use event_spec.Prelude.{Bool, ◌&&◌, List, [], ◌∷◌, map, ◌==◌, if◌then◌else◌}
use event_spec.Prelude.Int.{pos, ltb_ℤ}
use event_spec.Spec.Schema.{EventDef}
use event_spec.Spec.Version.{SchemaVer, Parsed, ok, err, parse_schema_ver, compare_schema_ver}

pub record Best : Type 0 where
  pub event : EventDef
  pub ver : SchemaVer

-- the comparison of the keys
unfoldable pub same_event : EventDef → EventDef → Bool
same_event a b = (a.namespace == b.namespace) && (a.name == b.name)

unfoldable pub is_newer : SchemaVer → SchemaVer → Bool
is_newer a b = ltb_ℤ (pos 0) (compare_schema_ver a b)

-- `best[k] = ev; bestVer[k] = sv` when there is no entry, or one that is older
unfoldable pub note_version : EventDef → SchemaVer → List Best → List Best
note_version ev sv [] = record { event = ev; ver = sv } ∷ []
note_version ev sv (b ∷ bs) =
    let rest = note_version ev sv bs in
    if same_event b.event ev
    then (if is_newer sv b.ver then record { event = ev; ver = sv } ∷ bs else b ∷ bs)
    else b ∷ rest

unfoldable pub note_event : EventDef → Parsed → List Best → List Best
note_event ev (err e) bs = bs
note_event ev (ok sv) bs = note_version ev sv bs

unfoldable pub note_events : List EventDef → List Best → List Best
note_events [] bs = bs
note_events (ev ∷ events) bs = note_events events (note_event ev (parse_schema_ver ev.version) bs)

-- func DeduplicateByLatest
unfoldable pub deduplicate_by_latest : List EventDef → List EventDef
deduplicate_by_latest events = map (λ b. b.event) (note_events events [])
