-- ===== src/Spec/Validator/Valid.antt =====
-- The files that the validator has nothing to report of.
use event_spec.Prelude.{
  ◌≡◌, ◌≢◌, ◌↔◌, ◌⊎◌, inl, inr, refl, subst, Bool, true, false, not, ◌&&◌, ◌||◌, List, [], ◌∷◌,
  ◌++◌, Option, none, some, String, Text, Map, any, All, Elem, Holds, text_eq, eq_iff, arith,
  Bool-cases, if◌then◌else◌, ◌==◌,
}
use event_spec.Prelude.Int.{pos, ltb_ℤ}
use event_spec.Spec.Schema.{float_one, PropertyDef, SamplingConfig, EventDef}
use event_spec.Spec.Version.{SchemaVer, VersionError, Parsed, ok, err, parse_schema_ver}
use event_spec.Spec.Validator.{
  Problem, report, is_one_of, check_required_name, check_version, event_statuses, event_types,
  property_types, sampling_strategies, priorities, check_properties, is_outside, check_sampling,
  validate_event_def,
}

report-nil :
    (file field : String) (p : Problem) (bad : Bool)
    → (report file field p bad ≡ []) ↔ (bad ≡ false)
unfolding report
report-nil file field p true = (λ h. cc, λ h. cc)
report-nil file field p false = (λ h. refl, λ h. refl)

append-nil_iff : {A : Type 0} (xs ys : List A) → (xs ++ ys ≡ []) ↔ ((xs ≡ []) × (ys ≡ []))
append-nil_iff [] ys = (λ h. (refl, h), λ h. h.1)
append-nil_iff (x ∷ xs) ys = (λ h. cc, λ h. cc)

is_one_of-Elem :
    (names : List String) (value : String) → (is_one_of names value ≡ true) ↔ Elem value names
unfolding is_one_of any
is_one_of-Elem [] value = (λ h. cc, λ h. absurd h)
is_one_of-Elem (n ∷ names) value =
    let ih = is_one_of-Elem names value in
    let here = eq_iff n value in
    elim (Bool-cases (n == value)) [
      | inl same ↦ rw same (λ _. inl (here.0 same), λ _. refl)
      | inr other ↦ rw other (
        λ h. inr (ih.0 h),
        λ h. elim h [ inl now ↦ absurd cc (here.1 now, other) | inr later ↦ ih.1 later ],
      )
    ]

-- One of the names, none of which is empty.
check_required_name-Elem :
    (file field : String) (names : List String) (value : String)
    → is_one_of names "" ≡ false
    → (check_required_name file field names value ≡ []) ↔ Elem value names
unfolding check_required_name
check_required_name-Elem file field names value no_empty =
    let known = is_one_of-Elem names value in
    elim (Bool-cases (value == "")) [
      | inl empty ↦ rw empty (
        λ h. absurd cc ((report-nil file field Problem.required true).0 h),
        λ h. absurd cc (
          subst (λ v. is_one_of names v ≡ true) ((eq_iff value "").0 empty) (known.1 h),
          no_empty,
        ),
      )
      | inr given ↦
          let rep =
            report-nil file field (Problem.invalid_value value) (not (is_one_of names value)) in
          rw given (λ h. known.0 (ground (arith, rep.0 h)), λ h. rep.1 (ground (arith, known.1 h)))
    ]

abbrev pub IsKnownProperty : String × PropertyDef → Type 0
IsKnownProperty (name, prop) = Elem prop.type property_types

abbrev pub IsKnownSampling : SamplingConfig → Type 0
IsKnownSampling s =
    Elem s.strategy sampling_strategies
    × (ltb_ℤ s.rate (pos 0) ≡ false)
    × (ltb_ℤ float_one s.rate ≡ false)

-- What an event spec has to be.
pub record IsValidEvent (def : EventDef) : Type 0 where
  pub named : def.name ≢ ""
  pub versioned : (v : SchemaVer) × (parse_schema_ver def.version ≡ ok v)
  pub in_namespace : def.namespace ≢ ""
  pub event_named : def.event_name ≢ ""
  pub known_status : Elem def.status event_statuses
  pub known_type : Elem def.type event_types
  pub known_properties : All IsKnownProperty def.properties
  pub known_sampling : Holds IsKnownSampling def.sampling
  pub known_priority : (def.property_priority ≡ "") ⊎ Elem def.property_priority priorities

report-empty :
    (file field value : String)
    → (report file field Problem.required (value == "") ≡ []) ↔ (value ≢ "")
report-empty file field value =
    let rep = report-nil file field Problem.required (value == "") in
    (
      λ h e. absurd cc (rep.0 h, (eq_iff value "").1 e),
      λ h. rep.1 (ground (arith, eq_iff value "", h)),
    )

check_properties-nil :
    (file : String) (properties : Map PropertyDef)
    → (check_properties file properties ≡ []) ↔ All IsKnownProperty properties
unfolding check_properties
check_properties-nil file [] = (λ _. tt, λ _. refl)
check_properties-nil file ((name, prop) ∷ properties) =
    let ih = check_properties-nil file properties in
    let known = is_one_of-Elem property_types prop.type in
    let rep =
      report-nil file _ (Problem.invalid_value prop.type)
        (not (is_one_of property_types prop.type)) in
    let both = append-nil_iff _ (check_properties file properties) in
    (
      λ h. let (a, b) = both.0 h in (known.0 (ground (arith, rep.0 a)), ih.0 b),
      λ (a, b). both.1 (rep.1 (ground (arith, known.1 a)), ih.1 b),
    )

check_sampling-nil :
    (file : String) (s : Option SamplingConfig)
    → (check_sampling file s ≡ []) ↔ Holds IsKnownSampling s
unfolding check_sampling is_outside
check_sampling-nil file none = (λ _. tt, λ _. refl)
check_sampling-nil file (some s) =
    let known = is_one_of-Elem sampling_strategies s.strategy in
    let rep =
      report-nil file "sampling.strategy" (Problem.invalid_value s.strategy)
        (not (is_one_of sampling_strategies s.strategy)) in
    let out =
      report-nil file "sampling.rate" (Problem.out_of_range s.rate)
        (ltb_ℤ s.rate (pos 0) || ltb_ℤ float_one s.rate) in
    let both = append-nil_iff _ _ in
    (
      λ h.
          let (a, b) = both.0 h in
          (known.0 (ground (arith, rep.0 a)), ground (arith, out.0 b), ground (arith, out.0 b)),
      λ (a, low, high).
          both.1 (rep.1 (ground (arith, known.1 a)), out.1 (ground (arith, low, high))),
    )

check_version-ok :
    (file : String) (p : Parsed) → (check_version file p ≡ []) ↔ ((v : SchemaVer) × (p ≡ ok v))
unfolding check_version report
check_version-ok file (ok v) = (λ _. (v, refl), λ _. refl)
check_version-ok file (err e) = (λ h. cc, λ (v, h). cc)

empty_version : parse_schema_ver [] ≡ err VersionError.not_three_parts
unfolding parse_schema_ver
empty_version = refl

check_version-nil :
    (file : String) (s : Text)
    → ((if text_eq s []
          then report file "version" Problem.required true
          else check_version file (parse_schema_ver s))
        ≡ [])
      ↔ ((v : SchemaVer) × (parse_schema_ver s ≡ ok v))
unfolding text_eq report
check_version-nil file [] = (λ h. cc, λ (v, h). absurd cc (h, empty_version))
check_version-nil file (c ∷ s) = check_version-ok file (parse_schema_ver (c ∷ s))

check_priority-nil :
    (file value : String)
    → (report file "property_priority"
          (Problem.invalid_value value)
          (not (value == "") && not (is_one_of priorities value))
        ≡ [])
      ↔ ((value ≡ "") ⊎ Elem value priorities)
check_priority-nil file value =
    let known = is_one_of-Elem priorities value in
    let rep =
      report-nil file "property_priority" (Problem.invalid_value value)
        (not (value == "") && not (is_one_of priorities value)) in
    let absent = eq_iff value "" in
    (
      λ h. elim (Bool-cases (value == "")) [
        | inl empty ↦ inl (absent.0 empty)
        | inr given ↦ inr (known.0 (ground (arith, rep.0 h, given)))
      ],
      λ h. rep.1 (elim h [
        | inl empty ↦ ground (arith, absent.1 empty)
        | inr found ↦ ground (arith, known.1 found)
      ]),
    )

-- ValidateEventDef reports nothing exactly when the name, the namespace and the event name are
-- not empty, the version is one that ParseSchemaVer reads, the status, the type and the type of
-- every property are declared ones, the sampling, if any, has a declared strategy and a rate from
-- 0 to 1, and the property priority is empty or a declared one; of the schema identifier, the
-- display name, the enums and the other fields it asks nothing.
pub validate_event_def-IsValidEvent :
    (def : EventDef) → (validate_event_def def ≡ []) ↔ IsValidEvent def
unfolding validate_event_def is_one_of any
validate_event_def-IsValidEvent def =
    let file = def.source_path in
    let name = report-empty file "name" def.name in
    let version = check_version-nil file def.version in
    let namespace = report-empty file "namespace" def.namespace in
    let event_name = report-empty file "event_name" def.event_name in
    let status = check_required_name-Elem file "status" event_statuses def.status refl in
    let type_ = check_required_name-Elem file "type" event_types def.type refl in
    let properties = check_properties-nil file def.properties in
    let sampling = check_sampling-nil file def.sampling in
    let priority = check_priority-nil file def.property_priority in
    (
      λ h.
          let (a, h1) = (append-nil_iff _ _).0 h in
          let (b, h2) = (append-nil_iff _ _).0 h1 in
          let (c, h3) = (append-nil_iff _ _).0 h2 in
          let (d, h4) = (append-nil_iff _ _).0 h3 in
          let (e, h5) = (append-nil_iff _ _).0 h4 in
          let (f, h6) = (append-nil_iff _ _).0 h5 in
          let (g, h7) = (append-nil_iff _ _).0 h6 in
          let (i, j) = (append-nil_iff _ _).0 h7 in
          record {
            named = name.0 a;
            versioned = version.0 b;
            in_namespace = namespace.0 c;
            event_named = event_name.0 d;
            known_status = status.0 e;
            known_type = type_.0 f;
            known_properties = properties.0 g;
            known_sampling = sampling.0 i;
            known_priority = priority.0 j;
          },
      λ ok_.
          rw
            (
              name.1 ok_.named,
              version.1 ok_.versioned,
              namespace.1 ok_.in_namespace,
              event_name.1 ok_.event_named,
              status.1 ok_.known_status,
              type_.1 ok_.known_type,
              properties.1 ok_.known_properties,
              sampling.1 ok_.known_sampling,
            )
            (priority.1 ok_.known_priority),
    )
