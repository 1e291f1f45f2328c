-- ===== src/Spec/Equal.antt =====
-- The comparisons of fields that Diff makes (spec/diff.go).
use event_spec.Prelude.{
  Bool, true, false, ◌&&◌, Option, none, some, List, [], ◌∷◌, String, eqb, if◌then◌else◌, ◌==◌, Map,
  lookup, length,
}
use event_spec.Prelude.Int.{eq_ℤ}
use event_spec.Spec.Schema.{ProviderOverride, SamplingConfig}

-- func strSliceEqual
unfoldable pub str_slice_equal : List String → List String → Bool
str_slice_equal [] [] = true
str_slice_equal [] (y ∷ ys) = false
str_slice_equal (x ∷ xs) [] = false
str_slice_equal (x ∷ xs) (y ∷ ys) = if x == y then str_slice_equal xs ys else false

-- func samplingEqual; a nil pointer is `none`
unfoldable pub sampling_equal : Option SamplingConfig → Option SamplingConfig → Bool
sampling_equal none none = true
sampling_equal none (some b) = false
sampling_equal (some a) none = false
sampling_equal (some a) (some b) = a.strategy == b.strategy && eq_ℤ a.rate b.rate

-- A map of strings reads a missing key as the empty string.
abbrev pub or_empty : Option String → String
or_empty none = ""
or_empty (some s) = s

-- the inner loop of providerOverridesEqual
unfoldable pub property_map_within : Map String → Map String → Bool
property_map_within [] b = true
property_map_within ((k, v) ∷ a) b =
    if or_empty (lookup k b) == v then property_map_within a b else false

unfoldable pub override_equal : ProviderOverride → Option ProviderOverride → Bool
override_equal a none = false
override_equal a (some b) =
    a.event_name == b.event_name
    && eqb (length a.property_map) (length b.property_map)
    && property_map_within a.property_map b.property_map

unfoldable pub overrides_within : Map ProviderOverride → Map ProviderOverride → Bool
overrides_within [] b = true
overrides_within ((k, v) ∷ a) b =
    if override_equal v (lookup k b) then overrides_within a b else false

-- func providerOverridesEqual
unfoldable pub provider_overrides_equal : Map ProviderOverride → Map ProviderOverride → Bool
provider_overrides_equal a b = eqb (length a) (length b) && overrides_within a b
