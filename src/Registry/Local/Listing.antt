-- ===== src/Registry/Local/Listing.antt =====
-- What ListEvents and GetEvent of the local resolver return.
use event_spec.Prelude.{
  ◌≡◌, inl, inr, Bool, true, false, ◌↔◌, List, [], ◌∷◌, keep, any, All, Elem, Bool-cases, subst,
}
use event_spec.Spec.Schema.{EventDef}
use event_spec.Spec.Version.{SchemaVer, ok, parse_schema_ver}
use event_spec.Spec.Version.Order.{Less}
use event_spec.Registry.Latest.{same_event, deduplicate_by_latest}
use event_spec.Registry.Latest.Unique.{IsLatest, AreUnique, deduplicate_by_latest-IsLatest}
use event_spec.Registry.Local.{ListFilter, Index, matches, events_of, list_all_events, list_events}

Elem-keep :
    (p : EventDef → Bool) (e : EventDef) (xs : List EventDef)
    → Elem e (keep p xs) ↔ (Elem e xs × (p e ≡ true))
unfolding keep
Elem-keep p e [] = (λ h. absurd h, λ (h, _). absurd h)
Elem-keep p e (x ∷ xs) =
    let ih = Elem-keep p e xs in
    elim (Bool-cases (p x)) [
      | inl yes_ ↦ rw yes_ (
        (λ h. elim h [
          | inl now ↦ (inl now, subst (λ z. p z ≡ true) now yes_)
          | inr later ↦ (inr (ih.0 later).0, (ih.0 later).1)
        ]),
        (λ (h, good). elim h [ inl now ↦ inl now | inr later ↦ inr (ih.1 (later, good)) ]),
      )
      | inr no_ ↦ rw no_ (
        (λ h. (inr (ih.0 h).0, (ih.0 h).1)),
        (λ (h, good). elim h [
          | inl now ↦ absurd cc (subst (λ z. p z ≡ false) now no_, good)
          | inr later ↦ ih.1 (later, good)
        ]),
      )
    ]

-- An indexed event that passes the filter, whose version no other version of it that passes exceeds.
abbrev pub IsLatestMatch : ListFilter → Index → EventDef → Type 0
IsLatestMatch filter index r =
    Elem r (events_of index)
    × (matches filter r ≡ true)
    × ((rv : SchemaVer) × (parse_schema_ver r.version ≡ ok rv)
        × ((e : EventDef) (v : SchemaVer)
            → Elem e (events_of index)
            → matches filter e ≡ true
            → same_event r e ≡ true
            → parse_schema_ver e.version ≡ ok v
            → ¬ (Less rv v)))

All-IsLatestMatch :
    (filter : ListFilter) (index : Index) (rs : List EventDef)
    → All (IsLatest (keep (matches filter) (events_of index))) rs
    → All (IsLatestMatch filter index) rs
All-IsLatestMatch filter index [] h = tt
All-IsLatestMatch filter index (r ∷ rs) ((here, (rv, reads, newest)), h) =
    let split = (Elem-keep (matches filter) r (events_of index)).0 here in
    (
      (
        split.0,
        split.1,
        (
          rv,
          reads,
          λ e v there good.
              newest e v ((Elem-keep (matches filter) e (events_of index)).1 (there, good)),
        ),
      ),
      All-IsLatestMatch filter index rs h,
    )

-- ListEvents returns, for every namespace and name with a readable version that passes the filter,
-- exactly one event: the highest version among those that pass, not the highest of all.
pub list_events-IsLatestMatch :
    (filter : ListFilter) (index : Index)
    → All (IsLatestMatch filter index) (list_events filter index)
      × AreUnique (list_events filter index)
      × ((e : EventDef) (v : SchemaVer)
          → Elem e (events_of index)
          → matches filter e ≡ true
          → parse_schema_ver e.version ≡ ok v
          → any (λ s. same_event s e) (list_events filter index) ≡ true)
unfolding list_events list_all_events
list_events-IsLatestMatch filter index =
    let (latest, unique, complete) =
      deduplicate_by_latest-IsLatest (keep (matches filter) (events_of index)) in
    (
      All-IsLatestMatch filter index
          (deduplicate_by_latest (keep (matches filter) (events_of index))) latest,
      unique,
      λ e v there good.
          complete e v ((Elem-keep (matches filter) e (events_of index)).1 (there, good)),
    )
