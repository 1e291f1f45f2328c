-- ===== src/Registry/Local.antt =====
-- The resolver over a local directory (registry/local/resolver.go), with ListFilter and the errors
-- of registry/registry.go. The maps of the resolver are its state; the walk over the files, which
-- reads them, is its argument `defs`. A method that holds the lock is one step.
pub mod Listing
pub mod Active
pub mod Lookup
use event_spec.Prelude.{
  Bool, true, false, not, ◌&&◌, ◌||◌, List, [], ◌∷◌, ◌++◌, Option, none, some, String, Text, codes,
  text_eq, keep, any, ◌==◌, if◌then◌else◌,
}
use event_spec.Spec.Status
use event_spec.Spec.Schema.{EventDef, Float64}
use event_spec.Spec.Change.{Change}
use event_spec.Spec.Diff.{diff}
use event_spec.Spec.Version.{SchemaVer, Parsed, ok, err, parse_schema_ver}
use event_spec.Registry.Latest.{Best, is_newer, deduplicate_by_latest}

-- type ListFilter
pub record ListFilter : Type 0 where
  pub namespace : String
  pub status : String
  pub tags : List String

-- the field `events` of Resolver, "namespace/name/version" to event, in the order of one iteration
abbrev pub Index : Type 0
Index = List (Text × EventDef)

-- The results of a query; the error is one that wraps ErrNotFound.
pub data Found (A : Type 0) : Type 0 where
  found : A → Found A
  not_found : Found A

-- func eventKey
unfoldable pub event_key : String → String → Text → Text
event_key namespace name version = codes namespace ++ (b'/' ∷ (codes name ++ (b'/' ∷ version)))

unfoldable pub lookup_event : Text → Index → Found EventDef
lookup_event k [] = not_found
lookup_event k ((j, def) ∷ index) = if text_eq j k then found def else lookup_event k index

unfoldable pub insert_event : Text → EventDef → Index → Index
insert_event k def [] = (k, def) ∷ []
insert_event k def ((j, old) ∷ index) =
    if text_eq j k then (k, def) ∷ index else (j, old) ∷ insert_event k def index

unfoldable pub index_events : List EventDef → Index → Index
index_events [] index = index
index_events (def ∷ defs) index =
    index_events defs (insert_event (event_key def.namespace def.name def.version) def index)

-- func reload, the index of the events. An error of the walk, `none`, leaves the old index.
unfoldable pub reload : Option (List EventDef) → Index → Index
reload none index = index
reload (some defs) index = index_events defs []

-- func containsAll
unfoldable pub contains_all : List String → List String → Bool
contains_all tags [] = true
contains_all tags (r ∷ required) =
    if any (λ t. t == r) tags then contains_all tags required else false

-- the three tests of ListAllEvents
unfoldable pub matches : ListFilter → EventDef → Bool
matches filter def =
    not (not (filter.namespace == "") && not (def.namespace == filter.namespace))
    && (not (not (filter.status == "") && not (def.status == filter.status))
        && contains_all def.tags filter.tags)

unfoldable pub events_of : Index → List EventDef
events_of [] = []
events_of ((k, def) ∷ index) = def ∷ events_of index

-- func ListAllEvents
unfoldable pub list_all_events : ListFilter → Index → List EventDef
list_all_events filter index = keep (matches filter) (events_of index)

-- func ListEvents
unfoldable pub list_events : ListFilter → Index → List EventDef
list_events filter index = deduplicate_by_latest (list_all_events filter index)

-- whether the loop of GetEvent passes over the event
unfoldable pub is_candidate : String → String → EventDef → Bool
is_candidate namespace name def =
    (def.namespace == namespace) && ((def.name == name) && (def.status == Status.active))

-- the best one so far, with its version
unfoldable pub improve : EventDef → Parsed → Option Best → Option Best
improve def (err e) best = best
improve def (ok sv) none = some (record { event = def; ver = sv })
improve def (ok sv) (some b) =
    if is_newer sv b.ver then some (record { event = def; ver = sv }) else some b

unfoldable pub find_active : String → String → List EventDef → Option Best → Option Best
find_active namespace name [] best = best
find_active namespace name (def ∷ defs) best = find_active namespace name defs (
    if is_candidate namespace name def
    then improve def (parse_schema_ver def.version) best
    else best)

unfoldable pub found_best : Option Best → Found EventDef
found_best none = not_found
found_best (some b) = found b.event

-- func GetEvent
unfoldable pub get_event : String → String → Text → Index → Found EventDef
get_event namespace name [] index = found_best (find_active namespace name (events_of index) none)
get_event namespace name (c ∷ version) index =
    lookup_event (event_key namespace name (c ∷ version)) index

module _ (show_rate : Float64 → String) where
  diff_found : Found EventDef → Found EventDef → Found (List Change)
  diff_found not_found to = not_found
  diff_found (found from) not_found = not_found
  diff_found (found from) (found to) = found (diff show_rate from to)

  -- func (r *Resolver) Diff
  unfoldable pub diff_versions : String → String → Text → Text → Index → Found (List Change)
  unfolding diff_found
  diff_versions namespace name from to index =
      diff_found (lookup_event (event_key namespace name from) index)
        (lookup_event (event_key namespace name to) index)
