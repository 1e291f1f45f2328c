-- ===== src/Spec/JsonSchema/Required.antt =====
-- What the JSON Schema of an event asks for.
use event_spec.Prelude.{
  ◌≡◌, ◌↔◌, ◌⊎◌, inl, inr, refl, sym, ap, ◌∙◌, Bool, true, false, Option, none, some, List, [], ◌∷◌,
  String, Map, IsMap, lookup, has_key, has_key-lookup, Elem, Bool-cases, arith, eq_iff,
  if◌then◌else◌, ◌==◌,
}
use event_spec.Spec.Schema.{PropertyDef, EventDef}
use event_spec.Spec.JsonSchema.{
  Keyword, build_property_schema, property_schemas, required_names, build_json_schema,
}

abbrev pub schema_of : Option PropertyDef → Option (Map Keyword)
schema_of none = none
schema_of (some p) = some (build_property_schema p)

lookup-property_schemas :
    (name : String) (props : Map PropertyDef)
    → lookup name (property_schemas props) ≡ schema_of (lookup name props)
unfolding property_schemas lookup
lookup-property_schemas name [] = refl
lookup-property_schemas name ((k, p) ∷ props) = ground (arith, lookup-property_schemas name props)

-- The property is there and required.
abbrev pub IsRequired : String → Map PropertyDef → Type 0
IsRequired name props = (p : PropertyDef) × (lookup name props ≡ some p) × (p.required ≡ true)

Elem-if :
    (name k : String) (b : Bool) (rest : List String)
    → Elem name (if b then k ∷ rest else rest) ↔ (((k ≡ name) × (b ≡ true)) ⊎ Elem name rest)
Elem-if name k true rest = (
  λ e. elim e [ inl now ↦ inl (now, refl) | inr later ↦ inr later ],
  λ e. elim e [ inl (now, _) ↦ inl now | inr later ↦ inr later ],
)
Elem-if name k false rest =
    (λ e. inr e, λ e. elim e [ inl (_, never) ↦ absurd cc never | inr later ↦ later ])

Elem-required_names :
    (name : String) (props : Map PropertyDef)
    → IsMap props
    → Elem name (required_names props) ↔ IsRequired name props
unfolding required_names lookup
Elem-required_names name [] h = (λ e. absurd e, λ (p, found, r). absurd cc found)
Elem-required_names name ((k, p) ∷ props) (fresh, h) =
    let ih = Elem-required_names name props h in
    let head = Elem-if name k p.required (required_names props) in
    elim (Bool-cases (k == name)) [
      | inl same ↦
          let is_k = (eq_iff k name).0 same in
          rw same (
            λ e. elim (head.0 e) [
              | inl (_, needed) ↦ (p, refl, needed)
              | inr later ↦
                  let (q, found, r) = ih.0 later in
                  absurd cc (
                    has_key-lookup name props q found,
                    ap (λ i. has_key i props) (sym is_k) ∙ fresh,
                  )
            ],
            λ (q, found, r).
                let same_p : p ≡ q = cc found in
                head.1 (inl (is_k, ap (λ x. x.required) same_p ∙ r)),
          )
      | inr other ↦ rw other (
        λ e. elim (head.0 e) [
          | inl (now, _) ↦ absurd cc ((eq_iff k name).1 now, other)
          | inr later ↦ ih.0 later
        ],
        λ r. head.1 (inr (ih.1 r)),
      )
    ]

-- The schema requires exactly the properties that the event declares as required, and describes
-- exactly the properties that the event declares, each by its own schema.
pub build_json_schema-IsRequired :
    (def : EventDef) (name : String)
    → IsMap def.properties
    → (Elem name (build_json_schema def).required ↔ IsRequired name def.properties)
      × (lookup name (build_json_schema def).properties ≡ schema_of (lookup name def.properties))
unfolding build_json_schema
build_json_schema-IsRequired def name h =
    (Elem-required_names name def.properties h, lookup-property_schemas name def.properties)
