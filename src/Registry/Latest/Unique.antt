-- ===== src/Registry/Latest/Unique.antt =====
-- What DeduplicateByLatest returns.
use event_spec.Prelude.{
  ◌≡◌, refl, sym, true, false, ◌↔◌, ◌⊎◌, inl, inr, List, [], ◌∷◌, map, any, All, Elem, arith, subst,
  ◌∙◌,
}
use event_spec.Spec.Schema.{EventDef}
use event_spec.Spec.Version.{SchemaVer, VersionError, Parsed, ok, err, parse_schema_ver}
use event_spec.Spec.Version.Order.{Less}
use event_spec.Registry.Latest.{Best, same_event, note_event, note_events, deduplicate_by_latest}
use event_spec.Registry.Latest.Entries.{
  same_event_refl, has_event, has_event-note_version, AreDistinct, note_version-AreDistinct,
  IsNewest, Covers, With,
}
use event_spec.Registry.Latest.Newest.{note_version-IsNewest}

record Inv (S : EventDef → Type 0) (bs : List Best) : Type 0 where
  newest : All (IsNewest S) bs
  distinct : AreDistinct bs
  covers : Covers S bs

All-IsNewest :
    (S T : EventDef → Type 0)
    → ((e : EventDef) → S e ↔ T e)
    → (bs : List Best) → All (IsNewest S) bs
    → All (IsNewest T) bs
All-IsNewest S T iff [] h = tt
All-IsNewest S T iff (b ∷ bs) ((of_S, reads, newest), h) = (
  ((iff b.event).0 of_S, reads, λ e v ofT. newest e v ((iff e).1 ofT)),
  All-IsNewest S T iff bs h,
)

Inv-iff :
    (S T : EventDef → Type 0)
    → ((e : EventDef) → S e ↔ T e)
    → (bs : List Best) → Inv S bs
    → Inv T bs
Inv-iff S T iff bs inv = record {
  newest = All-IsNewest S T iff bs inv.newest;
  distinct = inv.distinct;
  covers = λ e v ofT. inv.covers e v ((iff e).1 ofT);
}

-- An event whose version cannot be read competes with none.
skip-IsNewest :
    (S : EventDef → Type 0) (ev : EventDef)
    → ((v : SchemaVer) → ¬ (parse_schema_ver ev.version ≡ ok v))
    → (bs : List Best) → All (IsNewest S) bs
    → All (IsNewest (With ev S)) bs
skip-IsNewest S ev bad [] h = tt
skip-IsNewest S ev bad (b ∷ bs) ((of_S, reads, newest), h) = (
  (
    inr of_S,
    reads,
    λ e v ofS same reads_e. elim ofS [
      | inl is_ev ↦
          absurd (bad v (subst (λ x. parse_schema_ver x.version ≡ ok v) (sym is_ev) reads_e))
      | inr old ↦ newest e v old same reads_e
    ],
  ),
  skip-IsNewest S ev bad bs h,
)

contradiction : (x : VersionError) (v : SchemaVer) → ¬ (err x ≡ ok v)
contradiction x v h = cc

-- One round of the loop.
note_event-Inv :
    (S : EventDef → Type 0) (ev : EventDef) (p : Parsed) (bs : List Best)
    → parse_schema_ver ev.version ≡ p
    → Inv S bs
    → Inv (With ev S) (note_event ev p bs)
unfolding note_event
note_event-Inv S ev (err x) bs reads inv =
    let bad = λ (v : SchemaVer) (h : parse_schema_ver ev.version ≡ ok v).
      contradiction x v (sym reads ∙ h) in
    record {
      newest = skip-IsNewest S ev bad bs inv.newest;
      distinct = inv.distinct;
      covers = λ e v ofS reads_e. elim ofS [
        | inl is_ev ↦
            absurd (bad v (subst (λ x. parse_schema_ver x.version ≡ ok v) (sym is_ev) reads_e))
        | inr old ↦ inv.covers e v old reads_e
      ];
    }
note_event-Inv S ev (ok sv) bs reads inv = record {
  newest =
      note_version-IsNewest S ev sv reads bs inv.distinct inv.newest
        (λ e v ofS reads_e same. inv.covers e v ofS reads_e);
  distinct = note_version-AreDistinct ev sv bs inv.distinct;
  covers = λ e v ofS reads_e. elim ofS [
    | inl is_ev ↦ ground (
      arith,
      has_event-note_version e ev sv bs,
      subst (λ x. same_event ev x ≡ true) is_ev (same_event_refl ev),
    )
    | inr old ↦ ground (arith, has_event-note_version e ev sv bs, inv.covers e v old reads_e)
  ];
}

-- An event of the rest of the list, or one that was already seen.
abbrev Seen : (EventDef → Type 0) → List EventDef → EventDef → Type 0
Seen S events e = Elem e events ⊎ S e

Seen-next :
    (S : EventDef → Type 0) (ev : EventDef) (events : List EventDef) (e : EventDef)
    → Seen (With ev S) events e ↔ Seen S (ev ∷ events) e
Seen-next S ev events e = (
  λ h. elim h [
    | inl later ↦ inl (inr later)
    | inr (inl now) ↦ inl (inl now)
    | inr (inr old) ↦ inr old
  ],
  λ h. elim h [
    | inl (inr later) ↦ inl later
    | inl (inl now) ↦ inr (inl now)
    | inr old ↦ inr (inr old)
  ],
)

note_events-Inv :
    (S : EventDef → Type 0) (events : List EventDef) (bs : List Best)
    → Inv S bs
    → Inv (Seen S events) (note_events events bs)
unfolding note_events
note_events-Inv S [] bs inv =
    Inv-iff S (Seen S [])
      (λ e. (λ h. inr h, λ h. elim h [ inl never ↦ absurd never | inr old ↦ old ])) bs inv
note_events-Inv S (ev ∷ events) bs inv =
    let p = parse_schema_ver ev.version in
    Inv-iff (Seen (With ev S) events) (Seen S (ev ∷ events)) (Seen-next S ev events)
      (note_events events (note_event ev p bs))
      (note_events-Inv (With ev S) events (note_event ev p bs) (note_event-Inv S ev p bs refl inv))

-- An event of the list with a version that can be read, and that no other version of it exceeds.
abbrev pub IsLatest : List EventDef → EventDef → Type 0
IsLatest events r =
    Elem r events
    × ((rv : SchemaVer) × (parse_schema_ver r.version ≡ ok rv)
        × ((e : EventDef) (v : SchemaVer)
            → Elem e events
            → same_event r e ≡ true
            → parse_schema_ver e.version ≡ ok v
            → ¬ (Less rv v)))

-- No two of the events have the same namespace and name.
abbrev pub AreUnique : List EventDef → Type 0
AreUnique [] = Unit
AreUnique (r ∷ rs) = (any (λ s. same_event s r) rs ≡ false) × AreUnique rs

any-map :
    (e : EventDef) (bs : List Best)
    → any (λ s. same_event s e) (map (λ b. b.event) bs) ≡ has_event e bs
unfolding any
any-map e [] = refl
any-map e (b ∷ bs) = ground (arith, any-map e bs)

map-AreUnique : (bs : List Best) → AreDistinct bs → AreUnique (map (λ b. b.event) bs)
map-AreUnique [] h = tt
map-AreUnique (b ∷ bs) (fresh, h) = (any-map b.event bs ∙ fresh, map-AreUnique bs h)

map-IsLatest :
    (events : List EventDef) (bs : List Best)
    → All (IsNewest (λ e. Elem e events)) bs
    → All (IsLatest events) (map (λ b. b.event) bs)
map-IsLatest events [] h = tt
map-IsLatest events (b ∷ bs) ((of_S, reads, newest), h) =
    ((of_S, (b.ver, reads, newest)), map-IsLatest events bs h)

-- DeduplicateByLatest returns, for every namespace and name that has a version that can be read,
-- exactly one event of the list, and its version is one that no other version of it exceeds.
pub deduplicate_by_latest-IsLatest :
    (events : List EventDef)
    → All (IsLatest events) (deduplicate_by_latest events)
      × AreUnique (deduplicate_by_latest events)
      × ((e : EventDef) (v : SchemaVer)
          → Elem e events
          → parse_schema_ver e.version ≡ ok v
          → any (λ s. same_event s e) (deduplicate_by_latest events) ≡ true)
unfolding deduplicate_by_latest
deduplicate_by_latest-IsLatest events =
    let bs = note_events events [] in
    let inv =
      Inv-iff (Seen (λ _. ⊥) events) (λ e. Elem e events)
        (λ e. (λ h. elim h [ inl here ↦ here | inr never ↦ absurd never ], λ h. inl h)) bs
        (note_events-Inv (λ _. ⊥) events []
          (record { newest = tt; distinct = tt; covers = λ e v never. absurd never })) in
    (
      map-IsLatest events bs inv.newest,
      map-AreUnique bs inv.distinct,
      λ e v here reads. any-map e bs ∙ inv.covers e v here reads,
    )
