-- ===== src/Registry/Local/Lookup.antt =====
-- What GetEvent of the local resolver returns under a version: the event that was read last.
use event_spec.Prelude.{
  ◌≡◌, refl, List, [], ◌∷◌, ◌++◌, All, arith, ap, String, ◌∙◌, some, if◌then◌else◌, text_eq,
  text_eq_iff, text_eq_refl, Text, ◌≢◌,
}
use event_spec.Spec.Schema.{EventDef}
use event_spec.Registry.Local.{
  Index, found, get_event, event_key, lookup_event, insert_event, index_events, reload,
}

lookup_event-insert_event :
    (k j : Text) (def : EventDef) (index : Index)
    → lookup_event j (insert_event k def index)
      ≡ (if text_eq k j then found def else lookup_event j index)
unfolding lookup_event insert_event
lookup_event-insert_event k j def [] = refl
lookup_event-insert_event k j def ((i, old) ∷ index) = ground (
  arith,
  text_eq_iff k j,
  text_eq_iff i k,
  text_eq_iff i j,
  lookup_event-insert_event k j def index,
)

-- None of the events has the key.
abbrev pub AreOthers : Text → List EventDef → Type 0
AreOthers k defs = All (λ d. event_key d.namespace d.name d.version ≢ k) defs

lookup_event-index_events :
    (k : Text) (later : List EventDef) (index : Index)
    → AreOthers k later
    → lookup_event k (index_events later index) ≡ lookup_event k index
unfolding index_events
lookup_event-index_events k [] index h = refl
lookup_event-index_events k (d ∷ later) index (other, h) =
    let j = event_key d.namespace d.name d.version in
    lookup_event-index_events k later (insert_event j d index) h
    ∙ ground (arith, lookup_event-insert_event j k d index, text_eq_iff j k, other)

index_events-append :
    (defs later : List EventDef) (index : Index)
    → index_events (defs ++ later) index ≡ index_events later (index_events defs index)
unfolding index_events
index_events-append [] later index = refl
index_events-append (d ∷ defs) later index =
    index_events-append defs later (insert_event (event_key d.namespace d.name d.version) d index)

get_event-lookup_event :
    (namespace name : String) (version : Text) (index : Index)
    → version ≢ []
    → get_event namespace name version index ≡ lookup_event (event_key namespace name version) index
unfolding get_event
get_event-lookup_event namespace name [] index h = absurd (h refl)
get_event-lookup_event namespace name (c ∷ version) index h = refl

-- After a reload, GetEvent finds every event of the directory by its namespace, name and version,
-- when it has a version and no event that is read after it has the same key.
pub get_event-reload :
    (defs later : List EventDef) (def : EventDef) (old : Index)
    → def.version ≢ []
    → AreOthers (event_key def.namespace def.name def.version) later
    → get_event def.namespace def.name def.version (reload (some (defs ++ (def ∷ later))) old)
      ≡ found def
unfolding reload index_events
get_event-reload defs later def old named others =
    let k = event_key def.namespace def.name def.version in
    let index = index_events defs [] in
    get_event-lookup_event def.namespace def.name def.version
      (index_events (defs ++ (def ∷ later)) []) named
    ∙ (ap (lookup_event k) (index_events-append defs (def ∷ later) [])
        ∙ (lookup_event-index_events k later (insert_event k def index) others
            ∙ ground (arith, lookup_event-insert_event k k def index, text_eq_refl k)))
