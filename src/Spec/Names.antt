-- ===== src/Spec/Names.antt =====
-- Lists of names: the sorted keys of a map, and the values of one list that another lacks
-- (spec/diff.go).
pub mod Laws
use event_spec.Prelude.{
  Bool, true, false, not, ◌&&◌, ◌||◌, Option, none, some, List, [], ◌∷◌, ◌++◌, map, String, Text, ℕ,
  ltb, eqb, codes, if◌then◌else◌, ◌==◌, Map, lookup, has_key, length, keep,
}
use event_spec.Spec.Schema.{PropertyDef}

-- the order of `sort.Strings`
text_less : Text → Text → Bool
text_less [] [] = false
text_less [] (d ∷ t) = true
text_less (c ∷ s) [] = false
text_less (c ∷ s) (d ∷ t) = if ltb c d then true else if eqb c d then text_less s t else false

insert_sorted : String → List String → List String
unfolding text_less
insert_sorted s [] = s ∷ []
insert_sorted s (t ∷ ts) =
    if text_less (codes t) (codes s) then t ∷ insert_sorted s ts else s ∷ t ∷ ts

sort : List String → List String
unfolding insert_sorted
sort [] = []
sort (s ∷ ss) = insert_sorted s (sort ss)

keys {ℓ} : {V : Type ℓ} → Map V → List String
keys [] = []
keys ((k, v) ∷ m) = k ∷ keys m

-- func sortedPropKeys
unfoldable pub sorted_prop_keys : Map PropertyDef → List String
unfolding sort keys
sorted_prop_keys m = sort (keys m)

-- membership in a set of strings, `map[string]bool`
unfoldable pub has : String → List String → Bool
has s [] = false
has s (t ∷ ts) = if t == s then true else has s ts

-- func sliceDiff
unfoldable pub slice_diff : List String → List String → List String
slice_diff a b = keep (λ s. not (has s b)) a

-- func enumDiff
unfoldable pub enum_diff : List String → List String → List String
enum_diff a b = keep (λ s. not (has s b)) a
