-- ===== src/Spec/Diff/Kept.antt =====
-- Which differences between two versions of one property diffProp calls breaking.
use event_spec.Prelude.{
  Bool, true, false, not, ◌&&◌, ◌||◌, ◌≡◌, ◌↔◌, refl, sym, ◌∙◌, List, [], ◌∷◌, ◌++◌, String, arith,
  eq_iff, ◌==◌, any, any-append, if◌then◌else◌,
}
use event_spec.Spec.Schema.{PropertyDef}
use event_spec.Spec.Change.{
  Change, change, type_changed, make_required, make_optional, description_only,
}
use event_spec.Spec.Names.{has, enum_diff}
use event_spec.Spec.Names.Laws.{enum_diff-slice_diff, slice_diff-eq-nil}
use event_spec.Spec.Diff.{when, enum_changes, diff_prop}

-- Some change of the list is breaking.
unfoldable pub has_breaking : List Change → Bool
unfolding any
has_breaking changes = any (λ c. c.breaking) changes

pub has_breaking-append :
    (xs ys : List Change) → has_breaking (xs ++ ys) ≡ has_breaking xs || has_breaking ys
unfolding has_breaking
has_breaking-append xs ys = any-append (λ c. c.breaking) xs ys

-- What a consumer of a property may rely on in the newer version. Between an optional and a
-- required version of a property Diff does not look at the enum.
pub record KeepsProp (p q : PropertyDef) : Type 0 where
  pub same_type : p.type ≡ q.type
  pub not_newly_required : q.required ≡ true → p.required ≡ true
  pub enum_kept : p.required ≡ q.required → (s : String) → has s p.enum ≡ true → has s q.enum ≡ true

enum_changes-breaking :
    (name : String) (removed added : List String) (rest : List Change)
    → has_breaking rest ≡ false
    → (has_breaking (enum_changes name removed added rest) ≡ false) ↔ (removed ≡ [])
unfolding enum_changes has_breaking
enum_changes-breaking name [] [] rest h = (λ _. refl, λ _. h)
enum_changes-breaking name [] (a ∷ added) rest h = (λ _. refl, λ _. refl)
enum_changes-breaking name (r ∷ removed) added rest h = (λ e. cc, λ e. cc)

-- What diffProp does behind its tests of the type and of `required`.
enum_part : String → PropertyDef → PropertyDef → List Change
enum_part name p q =
    enum_changes name (enum_diff p.enum q.enum) (enum_diff q.enum p.enum)
      (when (not (p.description == q.description)) (change description_only name false "" ""))

enum_part-breaking :
    (name : String) (p q : PropertyDef)
    → (has_breaking (enum_part name p q) ≡ false)
      ↔ ((s : String) → has s p.enum ≡ true → has s q.enum ≡ true)
unfolding enum_part
enum_part-breaking name p q =
    let parts =
      enum_changes-breaking name (enum_diff p.enum q.enum) (enum_diff q.enum p.enum)
        (when (not (p.description == q.description)) (change description_only name false "" ""))
        (unfold has_breaking in ground arith) in
    let kept = slice_diff-eq-nil p.enum q.enum in
    let same = enum_diff-slice_diff p.enum q.enum in
    (λ e. kept.0 (sym same ∙ parts.0 e), λ h. parts.1 (same ∙ kept.1 h))

diff_prop-tests :
    (name : String) (p q : PropertyDef)
    → diff_prop name p q ≡ (
        if not (p.type == q.type)
        then change type_changed name true p.type q.type ∷ []
        else if not p.required && q.required
        then change make_required name true "" "" ∷ []
        else if p.required && not q.required
        then change make_optional name false "" "" ∷ []
        else enum_part name p q)
unfolding diff_prop enum_part
diff_prop-tests name p q = refl

module _ (name : String) (p q : PropertyDef) where
  pub diff_prop-KeepsProp : has_breaking (diff_prop name p q) ≡ false → KeepsProp p q
  unfolding has_breaking
  diff_prop-KeepsProp e = record {
    same_type = ground (arith, eq_iff p.type q.type, diff_prop-tests name p q);
    not_newly_required = ground (arith, eq_iff p.type q.type, diff_prop-tests name p q);
    enum_kept = λ same.
        (enum_part-breaking name p q).0
          (ground (arith, eq_iff p.type q.type, diff_prop-tests name p q));
  }

  pub KeepsProp-diff_prop : KeepsProp p q → has_breaking (diff_prop name p q) ≡ false
  unfolding has_breaking
  KeepsProp-diff_prop h = ground (
    arith,
    eq_iff p.type q.type,
    diff_prop-tests name p q,
    h.same_type,
    h.not_newly_required,
    λ (r : p.required ≡ q.required). (enum_part-breaking name p q).1 (h.enum_kept r),
  )
