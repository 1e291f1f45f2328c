-- ===== src/Spec/Diff/Same.antt =====
-- Diff finds nothing between an event and itself.
use event_spec.Prelude.{
  true, false, ◌≡◌, refl, List, [], ◌∷◌, String, Map, IsMap, keep, arith, eq_iff, eq_refl, ◌==◌, ℕ,
  eqb, length, has_key, lookup, Option, none, some, ◌∙◌, Bool-cases, inl, inr,
}
use event_spec.Prelude.Int.{ℤ, pos, negsuc, eq_ℤ}
use event_spec.Spec.Schema.{Float64, PropertyDef, ProviderOverride, SamplingConfig, EventDef}
use event_spec.Spec.Equal.{
  str_slice_equal, sampling_equal, property_map_within, override_equal, overrides_within,
  provider_overrides_equal,
}
use event_spec.Spec.Names.{sorted_prop_keys, slice_diff, enum_diff}
use event_spec.Spec.Names.Laws.{slice_diff-eq-nil, enum_diff-slice_diff}
use event_spec.Spec.Diff.{
  enum_changes, diff_prop, rename_pairs, common_change, common_changes, prop_changes, renamed,
  metadata_changed, event_changes, diff,
}

str_slice_equal_refl : (xs : List String) → str_slice_equal xs xs ≡ true
unfolding str_slice_equal
str_slice_equal_refl [] = refl
str_slice_equal_refl (x ∷ xs) = ground (arith, eq_refl x, str_slice_equal_refl xs)

eq_ℤ_refl : (a : ℤ) → eq_ℤ a a ≡ true
unfolding eq_ℤ
eq_ℤ_refl (pos a) = ground arith
eq_ℤ_refl (negsuc a) = ground arith

sampling_equal_refl : (s : Option SamplingConfig) → sampling_equal s s ≡ true
unfolding sampling_equal
sampling_equal_refl none = refl
sampling_equal_refl (some s) = ground (arith, eq_refl s.strategy, eq_ℤ_refl s.rate)

-- A loop over part of a map `b` finds each entry in `b`: the entries of `a` stand in `b`.
abbrev Within {ℓ} : {V : Type ℓ} → Map V → Map V → Type ℓ
Within [] b = Unit
Within ((k, v) ∷ a) b = (lookup k b ≡ some v) × Within a b

module _ {ℓ} {V : Type ℓ} where
  Within-cons :
      (k : String) (v : V) (a b : Map V) → has_key k a ≡ false → Within a b → Within a ((k, v) ∷ b)
  unfolding has_key lookup
  Within-cons k v [] b h w = tt
  Within-cons k v ((j, u) ∷ a) b h (e, w) = elim (Bool-cases (j == k)) [
    | inl same ↦ cc (rw same at h)
    | inr other ↦ (ground (arith, eq_iff j k, eq_iff k j), Within-cons k v a b (rw other at h) w)
  ]

  Within-refl : (m : Map V) → IsMap m → Within m m
  unfolding lookup
  Within-refl [] h = tt
  Within-refl ((k, v) ∷ m) (fresh, h) =
      (ground (arith, eq_refl k), Within-cons k v m m fresh (Within-refl m h))

property_map-Within : (a b : Map String) → Within a b → property_map_within a b ≡ true
unfolding property_map_within
property_map-Within [] b w = refl
property_map-Within ((k, v) ∷ a) b (e, w) =
    rw e (ground (arith, eq_refl v, property_map-Within a b w))

-- Each override has a map.
abbrev pub AreMaps : Map ProviderOverride → Type 0
AreMaps [] = Unit
AreMaps ((k, v) ∷ m) = IsMap v.property_map × AreMaps m

eqb_refl : (n : ℕ) → eqb n n ≡ true
eqb_refl n = ground arith

overrides-Within :
    (a b : Map ProviderOverride) → AreMaps a → Within a b → overrides_within a b ≡ true
unfolding overrides_within override_equal
overrides-Within [] b m w = refl
overrides-Within ((k, v) ∷ a) b (mv, ma) (e, w) = rw e (
    ground (
      arith,
      eq_refl v.event_name,
      eqb_refl (length v.property_map),
      property_map-Within v.property_map v.property_map (Within-refl v.property_map mv),
      overrides-Within a b ma w,
    ))

enum_diff_self : (a : List String) → enum_diff a a ≡ []
enum_diff_self a = enum_diff-slice_diff a a ∙ (slice_diff-eq-nil a a).1 (λ s h. h)

diff_prop_self : (name : String) (p : PropertyDef) → diff_prop name p p ≡ []
unfolding diff_prop enum_changes
diff_prop_self name p =
    rw (enum_diff_self p.enum) (ground (arith, eq_refl p.type, eq_refl p.description))

common_change_self : (name : String) (o : Option PropertyDef) → common_change name o o ≡ []
unfolding common_change
common_change_self name none = refl
common_change_self name (some p) = diff_prop_self name p

common_changes_self : (m : Map PropertyDef) (names : List String) → common_changes m m names ≡ []
unfolding common_changes
common_changes_self m [] = refl
common_changes_self m (n ∷ names) =
    rw (common_change_self n (lookup n m)) (common_changes_self m names)

prop_changes_self : (m : Map PropertyDef) → prop_changes m m ≡ []
unfolding prop_changes rename_pairs slice_diff keep
prop_changes_self m =
    rw
      (
        (slice_diff-eq-nil (sorted_prop_keys m) (sorted_prop_keys m)).1 (λ s h. h),
        common_changes_self m (sorted_prop_keys m),
      )
      refl

-- Diff of an event with itself is empty, when its maps have no key twice.
pub diff_self :
    (show_rate : Float64 → String) (d : EventDef)
    → IsMap d.provider_overrides
    → AreMaps d.provider_overrides
    → diff show_rate d d ≡ []
unfolding diff event_changes renamed metadata_changed provider_overrides_equal
diff_self show_rate d hm ha = rw (prop_changes_self d.properties) (
    ground (
      arith,
      eq_refl d.name,
      eq_refl d.event_name,
      eq_refl d.type,
      eq_refl d.status,
      sampling_equal_refl d.sampling,
      str_slice_equal_refl d.context_properties,
      str_slice_equal_refl d.destinations,
      eq_refl d.property_priority,
      eqb_refl (length d.provider_overrides),
      overrides-Within d.provider_overrides d.provider_overrides ha
          (Within-refl d.provider_overrides hm),
      eq_refl d.description,
      eq_refl d.display_name,
      eq_refl d.owner,
      str_slice_equal_refl d.tags,
    ))
