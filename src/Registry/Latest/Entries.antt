-- ===== src/Registry/Latest/Entries.antt =====
-- The entries of DeduplicateByLatest, one for each event name, with the newest version.
use event_spec.Prelude.{
  ◌≡◌, refl, sym, Bool, true, false, ◌||◌, ◌⊎◌, inl, inr, List, [], ◌∷◌, any, Bool-cases, arith,
  eq_iff, ◌∙◌,
}
use event_spec.Spec.Schema.{EventDef}
use event_spec.Spec.Version.{SchemaVer, ok, parse_schema_ver}
use event_spec.Spec.Version.Order.{Less}
use event_spec.Registry.Latest.{Best, same_event, is_newer, note_version}

pub same_event_refl : (a : EventDef) → same_event a a ≡ true
unfolding same_event
same_event_refl a = ground (arith, eq_iff a.namespace a.namespace, eq_iff a.name a.name)

pub same_event-sym : (a b : EventDef) → same_event a b ≡ same_event b a
unfolding same_event
same_event-sym a b = ground (
  arith,
  eq_iff a.namespace b.namespace,
  eq_iff b.namespace a.namespace,
  eq_iff a.name b.name,
  eq_iff b.name a.name,
)

-- Replacing an event by one of the same name.
pub same_event-cong : (a b c : EventDef) → same_event a b ≡ true → same_event a c ≡ same_event b c
unfolding same_event
same_event-cong a b c h = ground (
  arith,
  h,
  eq_iff a.namespace b.namespace,
  eq_iff a.namespace c.namespace,
  eq_iff b.namespace c.namespace,
  eq_iff a.name b.name,
  eq_iff a.name c.name,
  eq_iff b.name c.name,
)

abbrev pub has_event : EventDef → List Best → Bool
has_event e bs = any (λ b. same_event b.event e) bs

pub has_event-note_version :
    (e ev : EventDef) (sv : SchemaVer) (bs : List Best)
    → has_event e (note_version ev sv bs) ≡ same_event ev e || has_event e bs
unfolding note_version any
has_event-note_version e ev sv [] = ground arith
has_event-note_version e ev sv (b ∷ bs) = elim (Bool-cases (same_event b.event ev)) [
  | inl same ↦
      ground (arith, same, same_event-cong b.event ev e same, has_event-note_version e ev sv bs)
  | inr other ↦ ground (arith, other, has_event-note_version e ev sv bs)
]

pub has_event-cong :
    (a b : EventDef) (bs : List Best) → same_event a b ≡ true → has_event a bs ≡ has_event b bs
unfolding any
has_event-cong a b [] h = refl
has_event-cong a b (x ∷ bs) h = ground (
  arith,
  same_event-sym x.event a,
  same_event-sym x.event b,
  same_event-cong a b x.event h,
  has_event-cong a b bs h,
)

-- No two entries are about the same event.
abbrev pub AreDistinct : List Best → Type 0
AreDistinct [] = Unit
AreDistinct (b ∷ bs) = (has_event b.event bs ≡ false) × AreDistinct bs

pub note_version-AreDistinct :
    (ev : EventDef) (sv : SchemaVer) (bs : List Best)
    → AreDistinct bs
    → AreDistinct (note_version ev sv bs)
unfolding note_version any
note_version-AreDistinct ev sv [] h = (refl, tt)
note_version-AreDistinct ev sv (b ∷ bs) (fresh, h) = elim (Bool-cases (same_event b.event ev)) [
  | inl same ↦ elim (Bool-cases (is_newer sv b.ver)) [
    | inl newer ↦ rw (same, newer) (sym (has_event-cong b.event ev bs same) ∙ fresh, h)
    | inr older ↦ rw (same, older) (fresh, h)
  ]
  | inr other ↦ rw other (
    has_event-note_version b.event ev sv bs
        ∙ ground (arith, same_event-sym ev b.event, other, fresh),
    note_version-AreDistinct ev sv bs h,
  )
]

-- The newest version among the events of `S`.
abbrev pub IsNewest : (EventDef → Type 0) → Best → Type 0
IsNewest S b =
    S b.event
    × (parse_schema_ver b.event.version ≡ ok b.ver)
    × ((e : EventDef) (v : SchemaVer)
        → S e
        → same_event b.event e ≡ true
        → parse_schema_ver e.version ≡ ok v
        → ¬ (Less b.ver v))

abbrev pub Covers : (EventDef → Type 0) → List Best → Type 0
Covers S bs =
    (e : EventDef) (v : SchemaVer) → S e → parse_schema_ver e.version ≡ ok v → has_event e bs ≡ true

-- `S`, and one event more.
abbrev pub With : EventDef → (EventDef → Type 0) → EventDef → Type 0
With ev S e = (ev ≡ e) ⊎ S e
