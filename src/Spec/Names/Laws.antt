-- ===== src/Spec/Names/Laws.antt =====
-- What the lists of names hold.
use event_spec.Prelude.{
  Bool, true, false, not, ◌&&◌, ◌≡◌, ◌↔◌, refl, List, [], ◌∷◌, String, if◌then◌else◌, ◌==◌, Map,
  arith, eq_iff, eq_refl, has_key, keep, any,
}
use event_spec.Spec.Schema.{PropertyDef}
use event_spec.Spec.Names.{insert_sorted, sort, keys, sorted_prop_keys, has, slice_diff, enum_diff}

has-insert_sorted :
    (s t : String) (ts : List String)
    → has s (insert_sorted t ts) ≡ (if t == s then true else has s ts)
unfolding has insert_sorted
has-insert_sorted s t [] = refl
has-insert_sorted s t (u ∷ ts) = ground (arith, has-insert_sorted s t ts)

has-sort : (s : String) (ts : List String) → has s (sort ts) ≡ has s ts
unfolding sort has
has-sort s [] = refl
has-sort s (t ∷ ts) = ground (arith, has-insert_sorted s t (sort ts), has-sort s ts)

has-keys {ℓ} : {V : Type ℓ} (s : String) (m : Map V) → has s (keys m) ≡ has_key s m
unfolding has keys has_key
has-keys s [] = refl
has-keys s ((k, v) ∷ m) = ground (arith, has-keys s m)

-- Sorting loses no key and adds none.
pub has-sorted_prop_keys :
    (s : String) (m : Map PropertyDef) → has s (sorted_prop_keys m) ≡ has_key s m
unfolding sorted_prop_keys
has-sorted_prop_keys s m = rw (has-sort s (keys m)) (has-keys s m)

-- The values of one list that another lacks.
pub has-slice_diff :
    (s : String) (a b : List String) → has s (slice_diff a b) ≡ has s a && not (has s b)
unfolding slice_diff has keep
has-slice_diff s [] b = refl
has-slice_diff s (t ∷ a) b = ground (arith, has-slice_diff s a b, eq_iff t s)

pub enum_diff-slice_diff : (a b : List String) → enum_diff a b ≡ slice_diff a b
unfolding enum_diff slice_diff
enum_diff-slice_diff a b = refl

pub slice_diff-nil : (a : List String) → slice_diff a [] ≡ a
unfolding slice_diff keep has
slice_diff-nil [] = refl
slice_diff-nil (s ∷ a) = rw (slice_diff-nil a)

nil_of_has : (a : List String) → ((s : String) → has s a ≡ false) → a ≡ []
unfolding has
nil_of_has [] h = refl
nil_of_has (s ∷ a) h = ground (arith, h s, eq_refl s)

-- Nothing is left of `a` exactly when `b` has all of it.
pub slice_diff-eq-nil :
    (a b : List String) → (slice_diff a b ≡ []) ↔ ((s : String) → has s a ≡ true → has s b ≡ true)
unfolding has
slice_diff-eq-nil a b = (
  λ e s. ground (arith, has-slice_diff s a b, e),
  λ h. nil_of_has (slice_diff a b) (λ s. ground (arith, has-slice_diff s a b, h s)),
)

any-false_at :
    (p : String → Bool) (a : List String) (s : String)
    → any p a ≡ false
    → has s a ≡ true
    → p s ≡ false
unfolding any has
any-false_at p [] s e h = cc
any-false_at p (t ∷ a) s e h = ground (arith, eq_iff t s, any-false_at p a s)

has-cons : (s t : String) (a : List String) → has s a ≡ true → has s (t ∷ a) ≡ true
unfolding has
has-cons s t a h = ground arith

has-head : (t : String) (a : List String) → has t (t ∷ a) ≡ true
unfolding has
has-head t a = ground (arith, eq_refl t)

any-false_of :
    (p : String → Bool) (a : List String)
    → ((s : String) → has s a ≡ true → p s ≡ false)
    → any p a ≡ false
unfolding any
any-false_of p [] h = refl
any-false_of p (t ∷ a) h =
    rw (h t (has-head t a)) (any-false_of p a (λ s hs. h s (has-cons s t a hs)))

-- A test fails on all of a list exactly when it fails at each of its names.
pub any-false :
    (p : String → Bool) (a : List String)
    → (any p a ≡ false) ↔ ((s : String) → has s a ≡ true → p s ≡ false)
any-false p a = (λ e s. any-false_at p a s e, any-false_of p a)
