-- ===== src/Analytics/Message/Extra.antt =====
-- No attribute of a context is lost on the way to a message.
use event_spec.Prelude.{
  ◌≡◌, refl, sym, ap, ◌∙◌, Bool, false, ◌||◌, Option, none, some, [], ◌∷◌, String, Map, IsMap,
  insert, lookup, has_key, lookup-insert, lookup-none_iff, Bool-cases, inl, inr, arith, eq_iff,
  if◌then◌else◌, ◌==◌, or_else,
}
use event_spec.Prelude.Values.{Value, Fields, string, object, null, bool, number, array}
use event_spec.Hooks.{AnalyticsContext}
use event_spec.Analytics.Message.{
  MessageContext, empty_message_context, place_string, place_map, place, place_all,
  build_message_context,
}

-- The keys that have a field of their own, for a string and for a map.
abbrev pub is_text_key : String → Bool
is_text_key k =
    (k == "ip_address")
    || ((k == "ip") || ((k == "user_agent") || ((k == "locale") || (k == "timezone"))))

abbrev pub is_map_key : String → Bool
is_map_key k =
    (k == "library")
    || ((k == "app") || ((k == "device") || ((k == "os") || ((k == "network") || (k == "screen")))))

abbrev pub has_field : String → Value → Bool
has_field k (string s) = is_text_key k
has_field k (object m) = is_map_key k
has_field k v = false

place_string-extra :
    (k : String) (s : String) (mc : MessageContext)
    → (place_string k s mc).extra
      ≡ (if is_text_key k then mc.extra else insert k (string s) mc.extra)
unfolding place_string
place_string-extra k s mc = ground arith

place_map-extra :
    (k : String) (m : Fields) (mc : MessageContext)
    → (place_map k m mc).extra ≡ (if is_map_key k then mc.extra else insert k (object m) mc.extra)
unfolding place_map
place_map-extra k m mc = ground arith

place-extra :
    (k : String) (v : Value) (mc : MessageContext)
    → (place k v mc).extra ≡ (if has_field k v then mc.extra else insert k v mc.extra)
unfolding place
place-extra k null mc = refl
place-extra k (bool b) mc = refl
place-extra k (number n) mc = refl
place-extra k (string s) mc = place_string-extra k s mc
place-extra k (array a) mc = refl
place-extra k (object m) mc = place_map-extra k m mc

-- What Extra is to hold for a key, by what the attributes hold.
abbrev pub left_over : String → Option Value → Option Value
left_over k none = none
left_over k (some v) = if has_field k v then none else some v

or_else-none : (o : Option Value) → or_else o none ≡ o
or_else-none none = refl
or_else-none (some v) = refl

next_key :
    (k j : String) (v : Value) (attributes extra : Map Value)
    → has_key j attributes ≡ false
    → or_else
        (left_over k (lookup k attributes))
        (lookup k (if has_field j v then extra else insert j v extra))
      ≡ or_else (left_over k (if j == k then some v else lookup k attributes)) (lookup k extra)
next_key k j v attributes extra fresh = elim (Bool-cases (j == k)) [
  | inl same ↦
      let is_k = (eq_iff j k).0 same in
      let absent =
        (lookup-none_iff k attributes).1 (ap (λ i. has_key i attributes) (sym is_k) ∙ fresh) in
      let field = ap (λ i. has_field i v) is_k in
      elim (Bool-cases (has_field j v)) [
        | inl promoted ↦ rw (same, promoted, absent, sym field ∙ promoted) refl
        | inr kept ↦
            rw (same, kept, absent, sym field ∙ kept, lookup-insert j k v extra) (rw same refl)
      ]
  | inr other ↦ elim (Bool-cases (has_field j v)) [
    | inl promoted ↦ rw (other, promoted) refl
    | inr kept ↦ rw (other, kept, lookup-insert j k v extra) (rw other refl)
  ]
]

place_all-extra :
    (k : String) (attributes : Map Value) (mc : MessageContext)
    → IsMap attributes
    → lookup k (place_all attributes mc).extra
      ≡ or_else (left_over k (lookup k attributes)) (lookup k mc.extra)
unfolding place_all lookup
place_all-extra k [] mc h = refl
place_all-extra k ((j, v) ∷ attributes) mc (fresh, h) =
    place_all-extra k attributes (place j v mc) h
    ∙ (ap (λ m. or_else (left_over k (lookup k attributes)) (lookup k m)) (place-extra j v mc)
        ∙ next_key k j v attributes mc.extra fresh)

-- Extra holds exactly the attributes that have no field of their own, with their values; a value of
-- another type than the field's stays in Extra under its key.
pub build_message_context-extra :
    (ctx : AnalyticsContext)
    → IsMap ctx.attributes
    → (k : String)
    → lookup k (build_message_context ctx).extra ≡ left_over k (lookup k ctx.attributes)
unfolding build_message_context lookup
build_message_context-extra ctx h k =
    place_all-extra k ctx.attributes empty_message_context h
    ∙ or_else-none (left_over k (lookup k ctx.attributes))
