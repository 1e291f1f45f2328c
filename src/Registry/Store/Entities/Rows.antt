-- ===== src/Registry/Store/Entities/Rows.antt =====
-- The rows of a table of named entities: what a name reads after each statement.
use event_spec.Prelude.{
  ◌≡◌, refl, ap, subst, ◌∙◌, inl, inr, Bool, true, false, not, ◌&&◌, List, [], ◌∷◌, ◌++◌, Option,
  none, some, String, any, arith, Bool-cases, eq_iff, if-ap, ◌==◌, if◌then◌else◌, or_else,
}
use event_spec.Registry.Store.{Codec, Engine, Reply, reply, missing, failed, EntityRow}
use event_spec.Registry.Store.Entities.{
  Entity, parsed, updated_row, named_row, is_named, update_rows, delete_rows, inserted_row,
  read_entity,
}

-- The answer of the table at each name.
abbrev pub View : Type 0 → Type 0
View A = String → Reply A

module _ {Doc : Type 0} where
  pub named_row-is_named :
      (name : String) (rows : List (EntityRow Doc))
      → is_named name rows ≡ false
      → named_row name rows ≡ none
  unfolding named_row is_named any
  named_row-is_named name [] h = refl
  named_row-is_named name (row ∷ rows) h = ground (arith, named_row-is_named name rows)

  named_row-append :
      (name : String) (rows : List (EntityRow Doc)) (row : EntityRow Doc)
      → named_row name (rows ++ (row ∷ []))
        ≡ or_else (named_row name rows) (if row.name == name then some row else none)
  unfolding named_row
  named_row-append name [] row = refl
  named_row-append name (r ∷ rows) row = elim (Bool-cases (r.name == name)) [
    | inl here ↦ rw here refl
    | inr there ↦ rw there (named_row-append name rows row)
  ]

  named_row-delete_rows :
      (name deleted : String) (rows : List (EntityRow Doc))
      → named_row name (delete_rows deleted rows)
        ≡ (if deleted == name then none else named_row name rows)
  unfolding named_row delete_rows
  named_row-delete_rows name deleted [] = ground arith
  named_row-delete_rows name deleted (row ∷ rows) = ground (
    arith,
    named_row-delete_rows name deleted rows,
    eq_iff deleted name,
    eq_iff row.name name,
    eq_iff row.name deleted,
  )

or_else-none : {A : Type 0} (o : Option A) → or_else o none ≡ o
or_else-none none = refl
or_else-none (some a) = refl

pub and_false : (b : Bool) → (b && false) ≡ false
and_false true = refl
and_false false = refl

pub and_not : (a b : Bool) → (a && not b) ≡ true → b ≡ false
and_not a b h = ground arith

pub and_assoc : (a b c : Bool) → (a && (b && c)) ≡ ((a && b) && c)
and_assoc true b c = refl
and_assoc false b c = refl

abbrev updated_in : {Doc : Type 0} → Engine → Doc → Option (EntityRow Doc) → Option (EntityRow Doc)
updated_in engine doc none = none
updated_in engine doc (some row) = some (updated_row engine doc row)

named_row-update_rows :
    {Doc : Type 0} (engine : Engine) (name updated : String) (doc : Doc)
    (rows : List (EntityRow Doc))
    → named_row name (update_rows engine updated doc rows) ≡ (
        if updated == name
        then updated_in engine doc (named_row name rows)
        else named_row name rows)
unfolding named_row update_rows
named_row-update_rows engine name updated doc [] = ground arith
named_row-update_rows engine name updated doc (row ∷ rows) = ground (
  arith,
  named_row-update_rows engine name updated doc rows,
  eq_iff row.name updated,
  eq_iff row.name name,
  eq_iff updated name,
)

unfoldable pub is_missing : {A : Type 0} → Reply A → Bool
is_missing (reply a) = false
is_missing missing = true
is_missing (failed stage) = false

is_missing-parsed : {A : Type 0} (o : Option A) → is_missing (parsed o) ≡ false
unfolding is_missing parsed
is_missing-parsed none = refl
is_missing-parsed (some a) = refl

module _ {A Doc : Type 0} (entity : Entity A) (yaml : Codec A Doc) where
  -- One assignment to the function, under a condition.
  abbrev pub assign : Bool → String → Reply A → View A → View A
  assign b name answer s = λ other. if b && (name == other) then answer else s other

  unfoldable pub view : List (EntityRow Doc) → View A
  view rows name = read_entity entity yaml (named_row name rows)

  pub view-none :
      (name : String) (rows : List (EntityRow Doc))
      → named_row name rows ≡ none
      → view rows name ≡ missing
  unfolding view read_entity
  view-none name rows gone = ap (read_entity entity yaml) gone

  pub is_missing-view :
      (name : String) (rows : List (EntityRow Doc))
      → is_missing (view rows name) ≡ not (is_named name rows)
  unfolding is_missing view read_entity named_row is_named any
  is_missing-view name [] = refl
  is_missing-view name (row ∷ rows) = elim (Bool-cases (row.name == name)) [
    | inl here ↦ rw here (is_missing-parsed (yaml.unmarshal row.spec_yaml))
    | inr there ↦ rw there (is_missing-view name rows)
  ]

  pub view-append :
      (name : String) (rows : List (EntityRow Doc)) (engine : Engine) (new : String) (doc : Doc)
      → is_named new rows ≡ false
      → view (rows ++ (inserted_row engine new doc ∷ [])) name
        ≡ (if new == name then parsed (yaml.unmarshal doc) else view rows name)
  unfolding view read_entity inserted_row
  view-append name rows engine new doc fresh =
      ap (read_entity entity yaml) (named_row-append name rows (inserted_row engine new doc))
      ∙ elim (Bool-cases (new == name)) [
        | inr differs ↦
            rw differs (ap (read_entity entity yaml) (or_else-none (named_row name rows)))
        | inl same ↦
            rw
              (
                same,
                named_row-is_named name rows
                    (subst (λ x. is_named x rows ≡ false) ((eq_iff new name).0 same) fresh),
              )
              refl
      ]

  updated_in-parsed :
      (name : String) (rows : List (EntityRow Doc)) (engine : Engine) (doc : Doc)
      → read_entity entity yaml (updated_in engine doc (named_row name rows)) ≡ (
          if not (not (is_named name rows)) && true
          then parsed (yaml.unmarshal doc)
          else read_entity entity yaml (named_row name rows))
  unfolding read_entity is_named any named_row
  updated_in-parsed name [] engine doc = refl
  updated_in-parsed name (row ∷ rows) engine doc = elim (Bool-cases (row.name == name)) [
    | inl here ↦ rw here refl
    | inr there ↦ rw there (updated_in-parsed name rows engine doc)
  ]

  pub view-update_rows :
      (name : String) (rows : List (EntityRow Doc)) (engine : Engine) (updated : String) (doc : Doc)
      → view (update_rows engine updated doc rows) name ≡ (
          if not (is_missing (view rows updated)) && (updated == name)
          then parsed (yaml.unmarshal doc)
          else view rows name)
  unfolding view read_entity
  view-update_rows name rows engine updated doc =
      ap (read_entity entity yaml) (named_row-update_rows engine name updated doc rows)
      ∙ elim (Bool-cases (updated == name)) [
        | inr differs ↦ rw (differs, and_false (not (is_missing (view rows updated)))) refl
        | inl same ↦
            rw (same, is_missing-view updated rows, (eq_iff updated name).0 same)
              (updated_in-parsed name rows engine doc)
      ]

  pub view-delete_rows :
      (name : String) (rows : List (EntityRow Doc)) (deleted : String)
      → view (delete_rows deleted rows) name ≡ (if deleted == name then missing else view rows name)
  unfolding view read_entity
  view-delete_rows name rows deleted =
      ap (read_entity entity yaml) (named_row-delete_rows name deleted rows)
      ∙ if-ap (read_entity entity yaml) (deleted == name) none (named_row name rows)
