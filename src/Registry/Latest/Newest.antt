-- ===== src/Registry/Latest/Newest.antt =====
-- DeduplicateByLatest keeps, of each event, the newest version.
use event_spec.Prelude.{
  ◌≡◌, refl, sym, true, false, inl, inr, List, [], ◌∷◌, any, All, Bool-cases, arith, ◌∙◌, subst,
}
use event_spec.Spec.Schema.{EventDef}
use event_spec.Spec.Version.{SchemaVer, Parsed, ok, parse_schema_ver}
use event_spec.Spec.Version.RoundTrip.{IsVersion, parse-IsVersion}
use event_spec.Spec.Version.Order.{Less}
use event_spec.Registry.Latest.{Best, same_event, is_newer, note_version}
use event_spec.Registry.Latest.Order.{is_newer-Less, Less-trans, Less-irrefl}
use event_spec.Registry.Latest.Entries.{
  same_event-sym, same_event-cong, has_event, has_event-cong, AreDistinct, IsNewest, With,
}

ok-injective : {v w : SchemaVer} → Parsed.ok v ≡ ok w → v ≡ w
ok-injective e = cc

parsed : (e : EventDef) {v : SchemaVer} → parse_schema_ver e.version ≡ ok v → IsVersion v
parsed e h = (parse-IsVersion e.version h).0

module _ (S : EventDef → Type 0) (ev : EventDef) (sv : SchemaVer)
    (reads : parse_schema_ver ev.version ≡ ok sv) where
  -- An entry stays the newest, unless the new event is a newer version of it.
  stays-IsNewest :
      (b : Best)
      → (same_event b.event ev ≡ true → ¬ (Less b.ver sv))
      → IsNewest S b
      → IsNewest (With ev S) b
  stays-IsNewest b old (of_S, reads_b, newest) = (
    inr of_S,
    reads_b,
    λ e v ofS same reads_e below. elim ofS [
      | inl is_ev ↦ old (subst (λ x. same_event b.event x ≡ true) (sym is_ev) same) (
          subst (Less b.ver)
            (ok-injective
              (sym reads_e ∙ subst (λ x. parse_schema_ver x.version ≡ ok sv) is_ev reads))
            below)
      | inr old_e ↦ newest e v old_e same reads_e below
    ],
  )

  All-stay :
      (bs : List Best)
      → has_event ev bs ≡ false
      → All (IsNewest S) bs
      → All (IsNewest (With ev S)) bs
  unfolding any
  All-stay [] fresh h = tt
  All-stay (b ∷ bs) fresh (hb, h) = elim (Bool-cases (same_event b.event ev)) [
    | inl same ↦ cc (rw same at fresh)
    | inr other ↦ (stays-IsNewest b (λ same. absurd cc) hb, All-stay bs (rw other at fresh) h)
  ]

  -- The new event is the newest, if every other version of it is older than one that was.
  new-IsNewest :
      ((e : EventDef) (v : SchemaVer)
        → S e
        → same_event ev e ≡ true
        → parse_schema_ver e.version ≡ ok v
        → ¬ (Less sv v))
      → IsNewest (With ev S) (record { event = ev; ver = sv })
  new-IsNewest newest = (
    inl refl,
    reads,
    λ e v ofS same reads_e below. elim ofS [
      | inl is_ev ↦ Less-irrefl sv (
          subst (Less sv)
            (ok-injective
              (sym reads_e ∙ subst (λ x. parse_schema_ver x.version ≡ ok sv) is_ev reads))
            below)
      | inr old_e ↦ newest e v old_e same reads_e below
    ],
  )

  pub note_version-IsNewest :
      (bs : List Best)
      → AreDistinct bs
      → All (IsNewest S) bs
      → ((e : EventDef) (v : SchemaVer)
          → S e
          → parse_schema_ver e.version ≡ ok v
          → same_event ev e ≡ true
          → has_event e bs ≡ true)
      → All (IsNewest (With ev S)) (note_version ev sv bs)
  unfolding note_version any
  note_version-IsNewest [] dist h cov =
      (new-IsNewest (λ e v ofS same reads_e. absurd cc (cov e v ofS reads_e same)), tt)
  note_version-IsNewest (b ∷ bs) (fresh, dist) ((of_S, reads_b, newest), h) cov =
      elim (Bool-cases (same_event b.event ev)) [
        | inl same ↦
            let rest = All-stay bs (sym (has_event-cong b.event ev bs same) ∙ fresh) h in
            let order = is_newer-Less sv b.ver (parsed ev reads) (parsed b.event reads_b) in
            elim (Bool-cases (is_newer sv b.ver)) [
              | inl newer ↦
                  rw (same, newer)
                    (
                      new-IsNewest (λ e v ofS same_e reads_e below.
                          newest e v ofS (same_event-cong b.event ev e same ∙ same_e) reads_e
                            (Less-trans b.ver sv v (order.0 newer) below)),
                      rest,
                    )
              | inr older ↦
                  rw (same, older)
                    (
                      stays-IsNewest b (λ _ below. absurd cc (order.1 below, older))
                          (of_S, reads_b, newest),
                      rest,
                    )
            ]
        | inr other ↦ rw other (
          stays-IsNewest b (λ same. absurd cc) (of_S, reads_b, newest),
          note_version-IsNewest bs dist h (λ e v ofS reads_e same_e. ground (
            arith,
            other,
            cov e v ofS reads_e same_e,
            same_e,
            same_event-cong ev e b.event same_e,
            same_event-sym ev b.event,
            same_event-sym e b.event,
          )),
        )
      ]
