-- ===== src/Registry/Local/Active.antt =====
-- What GetEvent of the local resolver returns when no version is named: the newest active one.
use event_spec.Prelude.{
  ◌≡◌, ◌⊎◌, inl, inr, refl, true, false, ◌↔◌, List, [], ◌∷◌, Elem, Bool-cases, ap, subst, String,
  sym, ◌∙◌, Option, none, some,
}
use event_spec.Spec.Schema.{EventDef}
use event_spec.Spec.Version.{SchemaVer, Parsed, ok, err, parse_schema_ver}
use event_spec.Spec.Version.RoundTrip.{parse-IsVersion}
use event_spec.Spec.Version.Order.{Less}
use event_spec.Registry.Latest.{Best, is_newer}
use event_spec.Registry.Latest.Order.{is_newer-Less, Less-trans, Less-irrefl}
use event_spec.Registry.Local.{
  Index, Found, found, not_found, events_of, is_candidate, improve, find_active, found_best,
  get_event,
}

-- What the loop has, when the events of `S` are behind it.
abbrev IsBestOf : (EventDef → Type 0) → Option Best → Type 0
IsBestOf S none = (e : EventDef) (v : SchemaVer) → S e → ¬ (parse_schema_ver e.version ≡ ok v)
IsBestOf S (some b) =
    S b.event
    × (parse_schema_ver b.event.version ≡ ok b.ver)
    × ((e : EventDef) (v : SchemaVer) → S e → parse_schema_ver e.version ≡ ok v → ¬ (Less b.ver v))

IsBestOf-iff :
    (S T : EventDef → Type 0)
    → ((e : EventDef) → S e ↔ T e)
    → (best : Option Best) → IsBestOf S best
    → IsBestOf T best
IsBestOf-iff S T iff none h = λ e v ofT. h e v ((iff e).1 ofT)
IsBestOf-iff S T iff (some b) (of_S, reads, newest) =
    ((iff b.event).0 of_S, reads, λ e v ofT. newest e v ((iff e).1 ofT))

-- `S`, and one event more.
abbrev Or : EventDef → (EventDef → Type 0) → EventDef → Type 0
Or def S e = (def ≡ e) ⊎ S e

ok-ok :
    (def e : EventDef) {p : Parsed} {v : SchemaVer}
    → parse_schema_ver def.version ≡ p
    → def ≡ e
    → parse_schema_ver e.version ≡ ok v
    → p ≡ ok v
ok-ok def e reads is_def reads_e =
    sym reads ∙ (ap (λ x. parse_schema_ver x.version) is_def ∙ reads_e)

ok-inj : {v w : SchemaVer} → Parsed.ok v ≡ ok w → v ≡ w
ok-inj h = cc

improve-IsBestOf :
    (S : EventDef → Type 0) (def : EventDef) (p : Parsed) (best : Option Best)
    → parse_schema_ver def.version ≡ p
    → IsBestOf S best
    → IsBestOf (Or def S) (improve def p best)
unfolding improve
improve-IsBestOf S def (err x) none reads h = λ e v ofS reads_e. elim ofS [
  | inl is_def ↦ absurd cc (ok-ok def e reads is_def reads_e)
  | inr old ↦ h e v old reads_e
]
improve-IsBestOf S def (err x) (some b) reads (of_S, reads_b, newest) = (
  inr of_S,
  reads_b,
  λ e v ofS reads_e. elim ofS [
    | inl is_def ↦ absurd cc (ok-ok def e reads is_def reads_e)
    | inr old ↦ newest e v old reads_e
  ],
)
improve-IsBestOf S def (ok sv) none reads h = (
  inl refl,
  reads,
  λ e v ofS reads_e below. elim ofS [
    | inl is_def ↦
        Less-irrefl sv (subst (Less sv) (sym (ok-inj (ok-ok def e reads is_def reads_e))) below)
    | inr old ↦ h e v old reads_e
  ],
)
improve-IsBestOf S def (ok sv) (some b) reads (of_S, reads_b, newest) =
    let order =
      is_newer-Less sv b.ver (parse-IsVersion def.version reads).0
        (parse-IsVersion b.event.version reads_b).0 in
    elim (Bool-cases (is_newer sv b.ver)) [
      | inl newer ↦ rw newer (
        inl refl,
        reads,
        λ e v ofS reads_e below. elim ofS [
          | inl is_def ↦
              Less-irrefl sv
                (subst (Less sv) (sym (ok-inj (ok-ok def e reads is_def reads_e))) below)
          | inr old ↦ newest e v old reads_e (Less-trans b.ver sv v (order.0 newer) below)
        ],
      )
      | inr older ↦ rw older (
        inr of_S,
        reads_b,
        λ e v ofS reads_e below. elim ofS [
          | inl is_def ↦ absurd cc (
            order.1 (subst (Less b.ver) (sym (ok-inj (ok-ok def e reads is_def reads_e))) below),
            older,
          )
          | inr old ↦ newest e v old reads_e below
        ],
      )
    ]

module _ (namespace name : String) where
  -- An event of the list that is active and has the name.
  abbrev Candidate : List EventDef → EventDef → Type 0
  Candidate defs e = Elem e defs × (is_candidate namespace name e ≡ true)

  abbrev Reached : (EventDef → Type 0) → List EventDef → EventDef → Type 0
  Reached S defs e = Candidate defs e ⊎ S e

  Reached-take :
      (S : EventDef → Type 0) (def : EventDef) (defs : List EventDef) (e : EventDef)
      → is_candidate namespace name def ≡ true
      → Reached (Or def S) defs e ↔ Reached S (def ∷ defs) e
  Reached-take S def defs e good = (
    λ h. elim h [
      | inl (there, fits) ↦ inl (inr there, fits)
      | inr (inl now) ↦ inl (inl now, ap (is_candidate namespace name) (sym now) ∙ good)
      | inr (inr old) ↦ inr old
    ],
    λ h. elim h [
      | inl (inl now, fits) ↦ inr (inl now)
      | inl (inr there, fits) ↦ inl (there, fits)
      | inr old ↦ inr (inr old)
    ],
  )

  Reached-skip :
      (S : EventDef → Type 0) (def : EventDef) (defs : List EventDef) (e : EventDef)
      → is_candidate namespace name def ≡ false
      → Reached S defs e ↔ Reached S (def ∷ defs) e
  Reached-skip S def defs e bad = (
    λ h. elim h [ inl (there, fits) ↦ inl (inr there, fits) | inr old ↦ inr old ],
    λ h. elim h [
      | inl (inl now, fits) ↦ absurd cc (ap (is_candidate namespace name) now, bad, fits)
      | inl (inr there, fits) ↦ inl (there, fits)
      | inr old ↦ inr old
    ],
  )

  find_active-IsBestOf :
      (S : EventDef → Type 0) (defs : List EventDef) (best : Option Best)
      → IsBestOf S best
      → IsBestOf (Reached S defs) (find_active namespace name defs best)
  unfolding find_active
  find_active-IsBestOf S [] best h =
      IsBestOf-iff S (Reached S [])
        (λ e. (λ x. inr x, λ x. elim x [ inl never ↦ absurd never.0 | inr old ↦ old ])) best h
  find_active-IsBestOf S (def ∷ defs) best h = elim (Bool-cases (is_candidate namespace name def)) [
    | inl good ↦
        let p = parse_schema_ver def.version in
        rw good (
          IsBestOf-iff (Reached (Or def S) defs) (Reached S (def ∷ defs))
            (λ e. Reached-take S def defs e good)
            (find_active namespace name defs (improve def p best))
            (find_active-IsBestOf (Or def S) defs (improve def p best)
              (improve-IsBestOf S def p best refl h)))
    | inr bad ↦ rw bad (
        IsBestOf-iff (Reached S defs) (Reached S (def ∷ defs)) (λ e. Reached-skip S def defs e bad)
          (find_active namespace name defs best) (find_active-IsBestOf S defs best h))
  ]

  -- The answers of a GetEvent that names no version: an active event that no other active version
  -- exceeds, or ErrNotFound, and then no active version can be read.
  abbrev pub IsActiveAnswer : Index → Found EventDef → Type 0
  IsActiveAnswer index not_found =
      (e : EventDef) (v : SchemaVer)
      → Elem e (events_of index)
      → is_candidate namespace name e ≡ true
      → ¬ (parse_schema_ver e.version ≡ ok v)
  IsActiveAnswer index (found r) =
      Elem r (events_of index)
      × (is_candidate namespace name r ≡ true)
      × ((rv : SchemaVer) × (parse_schema_ver r.version ≡ ok rv)
          × ((e : EventDef) (v : SchemaVer)
              → Elem e (events_of index)
              → is_candidate namespace name e ≡ true
              → parse_schema_ver e.version ≡ ok v
              → ¬ (Less rv v)))

  found_best-IsActiveAnswer :
      (index : Index) (best : Option Best)
      → IsBestOf (Candidate (events_of index)) best
      → IsActiveAnswer index (found_best best)
  unfolding found_best
  found_best-IsActiveAnswer index none h = λ e v there fits. h e v (there, fits)
  found_best-IsActiveAnswer index (some b) ((there, fits), reads, newest) =
      (there, fits, (b.ver, reads, λ e v there_e fits_e. newest e v (there_e, fits_e)))

  -- GetEvent without a version returns an event of the index that is active, has the namespace and
  -- the name, and whose version no other such event exceeds; it returns ErrNotFound exactly when no
  -- such event has a readable version.
  pub get_event-IsActiveAnswer :
      (index : Index) → IsActiveAnswer index (get_event namespace name [] index)
  unfolding get_event
  get_event-IsActiveAnswer index =
      found_best-IsActiveAnswer index (find_active namespace name (events_of index) none) (
        IsBestOf-iff (Reached (λ _. ⊥) (events_of index)) (Candidate (events_of index))
          (λ e. (λ h. elim h [ inl now ↦ now | inr never ↦ absurd never ], λ h. inl h))
          (find_active namespace name (events_of index) none)
          (find_active-IsBestOf (λ _. ⊥) (events_of index) none (λ e v never. absurd never)))
