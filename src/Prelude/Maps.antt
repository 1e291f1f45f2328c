-- ===== src/Prelude/Maps.antt =====
-- A Go map with string keys, as the list of its entries in the order of one iteration.
use Prim.Native.String.{String}
use mathlib.Core.Path.{◌≡◌, refl, ◌∙◌, subst, ap}
use mathlib.Core.Bool.{Bool, true, false}
use mathlib.Core.Option.{Option, none, some}
use mathlib.Core.Logic.{◌↔◌, inl, inr}
use mathlib.Core.List.{List, [], ◌∷◌}
use native.Mathlib.Omega.{arith}
use event_spec.Prelude.Tests.{Bool-cases, if◌then◌else◌, ◌==◌, eq_iff}

abbrev pub Map {ℓ} : Type ℓ → Type ℓ
Map V = List (String × V)

module _ {ℓ} {V : Type ℓ} where
  unfoldable pub lookup : String → Map V → Option V
  lookup key [] = none
  lookup key ((name, value) ∷ rest) = if name == key then some value else lookup key rest

  unfoldable pub insert : String → V → Map V → Map V
  insert key new [] = (key, new) ∷ []
  insert key new ((name, value) ∷ rest) =
      if name == key then (key, new) ∷ rest else (name, value) ∷ insert key new rest

  -- What a key finds after an assignment: the new value under its own key, the old one elsewhere.
  pub lookup-insert :
      (key other : String) (new : V) (entries : Map V)
      → lookup other (insert key new entries)
        ≡ (if key == other then some new else lookup other entries)
  unfolding lookup insert
  lookup-insert key other new [] = refl
  lookup-insert key other new ((name, value) ∷ rest) =
      let later = lookup-insert key other new rest in
      ground (arith, later, eq_iff name key, eq_iff name other, eq_iff key other)

  -- `for k, v := range over { m[k] = v }`
  unfoldable pub insert_all : Map V → Map V → Map V
  insert_all [] m = m
  insert_all ((k, v) ∷ over) m = insert_all over (insert k v m)

  unfoldable pub has_key : String → Map V → Bool
  has_key k [] = false
  has_key k ((j, v) ∷ m) = if j == k then true else has_key k m

  -- The keys are pairwise different, as those of a Go map are.
  abbrev pub IsMap : Map V → Type 0
  IsMap [] = Unit
  IsMap ((k, v) ∷ m) = (has_key k m ≡ false) × IsMap m

  pub has_key-lookup : (k : String) (m : Map V) (v : V) → lookup k m ≡ some v → has_key k m ≡ true
  unfolding lookup has_key
  has_key-lookup k [] v h = cc
  has_key-lookup k ((j, w) ∷ m) v h = ground (arith, has_key-lookup k m v)

  pub lookup_of_has_key :
      (k : String) (m : Map V) → has_key k m ≡ true → (v : V) × (lookup k m ≡ some v)
  unfolding lookup has_key
  lookup_of_has_key k [] h = cc
  lookup_of_has_key k ((j, w) ∷ m) h = elim (Bool-cases (j == k)) [
    | inl same ↦ (w, rw same)
    | inr other ↦ rw other (lookup_of_has_key k m (rw other at h))
  ]

  pub lookup-none_iff : (k : String) (m : Map V) → (lookup k m ≡ none) ↔ (has_key k m ≡ false)
  unfolding lookup has_key
  lookup-none_iff k [] = (λ _. refl, λ _. refl)
  lookup-none_iff k ((j, w) ∷ m) =
      let ih = lookup-none_iff k m in (ground (arith, ih), ground (arith, ih))

  abbrev pub or_else : Option V → Option V → Option V
  or_else (some v) o = some v
  or_else none o = o

  pub has_key-insert :
      (k j : String) (v : V) (m : Map V)
      → has_key j (insert k v m) ≡ (if k == j then true else has_key j m)
  unfolding has_key insert
  has_key-insert k j v [] = refl
  has_key-insert k j v ((i, w) ∷ m) =
      let later = has_key-insert k j v m in
      ground (arith, later, eq_iff i k, eq_iff i j, eq_iff k j)

  pub insert-IsMap : (k : String) (v : V) (m : Map V) → IsMap m → IsMap (insert k v m)
  unfolding insert has_key
  insert-IsMap k v [] h = (refl, tt)
  insert-IsMap k v ((i, w) ∷ m) (fresh, h) = elim (Bool-cases (i == k)) [
    | inl same ↦ rw same (subst (λ j. has_key j m ≡ false) ((eq_iff i k).0 same) fresh, h)
    | inr other ↦
        rw other
          (ground (arith, has_key-insert k i v m, eq_iff i k, eq_iff k i), insert-IsMap k v m h)
  ]

  pub insert_all-IsMap : (over m : Map V) → IsMap m → IsMap (insert_all over m)
  unfolding insert_all
  insert_all-IsMap [] m h = h
  insert_all-IsMap ((k, v) ∷ over) m h = insert_all-IsMap over (insert k v m) (insert-IsMap k v m h)

  -- Copying one map over another: its entries win.
  pub lookup-insert_all :
      (k : String) (over m : Map V)
      → IsMap over
      → lookup k (insert_all over m) ≡ or_else (lookup k over) (lookup k m)
  unfolding insert_all lookup
  lookup-insert_all k [] m h = refl
  lookup-insert_all k ((j, v) ∷ over) m (fresh, h) =
      lookup-insert_all k over (insert j v m) h ∙ elim (Bool-cases (j == k)) [
        | inl same ↦
            rw (lookup-insert j k v m, same)
              (ap (λ o. or_else o (some v))
                ((lookup-none_iff k over).1
                  (subst (λ i. has_key i over ≡ false) ((eq_iff j k).0 same) fresh)))
        | inr other ↦ rw (lookup-insert j k v m, other) refl
      ]
