-- ===== src/Spec/Diff/Props.antt =====
-- Which differences between two maps of properties Diff calls breaking.
use event_spec.Prelude.{
  Bool, true, false, ◌||◌, ◌≡◌, ◌↔◌, refl, sym, ap, ◌∙◌, subst, List, [], ◌∷◌, map, String, Option,
  none, some, Map, arith, keep, has_key, lookup, any, has_key-lookup, lookup_of_has_key,
  lookup-none_iff,
}
use event_spec.Spec.Schema.{PropertyDef}
use event_spec.Spec.Names.{sorted_prop_keys, has, slice_diff}
use event_spec.Spec.Names.Laws.{
  has-sorted_prop_keys, has-slice_diff, slice_diff-nil, slice_diff-eq-nil, any-false,
}
use event_spec.Spec.Diff.{
  required_of, rename_pairs, rename_change, remove_change, add_change, common_change,
  common_changes, first, second, prop_changes,
}
use event_spec.Spec.Diff.Kept.{
  has_breaking, has_breaking-append, KeepsProp, diff_prop-KeepsProp, KeepsProp-diff_prop,
}

-- What a consumer of an event may rely on in the newer version.
pub record KeepsProps (from to : Map PropertyDef) : Type 0 where
  pub kept :
      (k : String) (p : PropertyDef)
      → lookup k from ≡ some p
      → (q : PropertyDef) × (lookup k to ≡ some q) × KeepsProp p q
  pub added_optional :
      (k : String) (q : PropertyDef)
      → lookup k to ≡ some q
      → lookup k from ≡ none
      → q.required ≡ false

pub pairs-nil :
    (pairs : List (String × String)) → has_breaking (map rename_change pairs) ≡ false → pairs ≡ []
unfolding has_breaking any
pairs-nil [] e = refl
pairs-nil (p ∷ pairs) e = cc

pub removed-nil :
    (names : List String) → has_breaking (map remove_change names) ≡ false → names ≡ []
unfolding has_breaking any
removed-nil [] e = refl
removed-nil (n ∷ names) e = cc

pub added-breaking :
    (to : Map PropertyDef) (names : List String)
    → has_breaking (map (add_change to) names) ≡ any (λ k. required_of (lookup k to)) names
unfolding has_breaking any
added-breaking to [] = refl
added-breaking to (n ∷ names) = ground (arith, added-breaking to names)

pub common-breaking :
    (from to : Map PropertyDef) (names : List String)
    → has_breaking (common_changes from to names)
      ≡ any (λ k. has_breaking (common_change k (lookup k from) (lookup k to))) names
unfolding common_changes any
common-breaking from to [] = unfold has_breaking in refl
common-breaking from to (n ∷ names) = ground (
  arith,
  common-breaking from to names,
  has_breaking-append (common_change n (lookup n from) (lookup n to))
      (common_changes from to names),
)

pub common_change-breaking :
    (k : String) (a b : Option PropertyDef)
    → ((p q : PropertyDef) → a ≡ some p → b ≡ some q → KeepsProp p q)
    → has_breaking (common_change k a b) ≡ false
unfolding common_change
common_change-breaking k (some p) (some q) h = KeepsProp-diff_prop k p q (h p q refl refl)
common_change-breaking k (some p) none h = unfold has_breaking in refl
common_change-breaking k none b h = unfold has_breaking in refl

pub or_false : (a b : Bool) → (a || b ≡ false) ↔ ((a ≡ false) × (b ≡ false))
or_false a b = (ground arith, ground arith)

module _ (from to : Map PropertyDef) where
  pub removed_names : List String
  removed_names = slice_diff (sorted_prop_keys from) (sorted_prop_keys to)

  pub added_names : List String
  added_names = slice_diff (sorted_prop_keys to) (sorted_prop_keys from)

  pub removed_names-nil :
      (removed_names ≡ []) ↔ ((k : String) → has_key k from ≡ true → has_key k to ≡ true)
  unfolding removed_names
  removed_names-nil =
      let e = slice_diff-eq-nil (sorted_prop_keys from) (sorted_prop_keys to) in
      (
        λ n k h. sym (has-sorted_prop_keys k to) ∙ e.0 n k (has-sorted_prop_keys k from ∙ h),
        λ h. e.1 (λ k i. has-sorted_prop_keys k to ∙ h k (sym (has-sorted_prop_keys k from) ∙ i)),
      )

  pub has-added_names :
      (k : String) → (has k added_names ≡ true) ↔ ((has_key k to ≡ true) × (lookup k from ≡ none))
  unfolding added_names
  has-added_names k =
      let none_iff = lookup-none_iff k from in
      (
        λ h. (
          ground (
            arith,
            h,
            has-slice_diff k (sorted_prop_keys to) (sorted_prop_keys from),
            has-sorted_prop_keys k to,
          ),
          none_iff.1 (
              ground (
                arith,
                h,
                has-slice_diff k (sorted_prop_keys to) (sorted_prop_keys from),
                has-sorted_prop_keys k from,
              )),
        ),
        λ h. ground (
          arith,
          h.0,
          none_iff.0 h.1,
          has-sorted_prop_keys k to,
          has-sorted_prop_keys k from,
          has-slice_diff k (sorted_prop_keys to) (sorted_prop_keys from),
        ),
      )

  pub added_names-breaking : (any (λ k. required_of (lookup k to)) added_names ≡ false) ↔ (
      (k : String) (q : PropertyDef)
      → lookup k to ≡ some q
      → lookup k from ≡ none
      → q.required ≡ false)
  added_names-breaking =
      let all = any-false (λ k. required_of (lookup k to)) added_names in
      (
        λ e k q hq hf.
            ap required_of (sym hq)
            ∙ all.0 e k ((has-added_names k).1 (has_key-lookup k to q hq, hf)),
        λ h. all.1 λ k i.
            let (there, missing) = (has-added_names k).0 i in
            let (q, hq) = lookup_of_has_key k to there in ap required_of hq ∙ h k q hq missing,
      )

  pub common_names-breaking :
      (any
          (λ k. has_breaking (common_change k (lookup k from) (lookup k to)))
          (sorted_prop_keys from)
        ≡ false)
      ↔ ((k : String) (p q : PropertyDef)
          → lookup k from ≡ some p
          → lookup k to ≡ some q
          → KeepsProp p q)
  unfolding common_change
  common_names-breaking =
      let all =
        any-false (λ k. has_breaking (common_change k (lookup k from) (lookup k to)))
          (sorted_prop_keys from) in
      (
        λ e k p q hp hq. diff_prop-KeepsProp k p q (
            (λ i. has_breaking (common_change k (sym hp i) (sym hq i)))
            ∙ all.0 e k (has-sorted_prop_keys k from ∙ has_key-lookup k from p hp)),
        λ h. all.1 λ k i. common_change-breaking k (lookup k from) (lookup k to) (h k),
      )

  pub pairs : List (String × String)
  pairs = rename_pairs from to removed_names added_names []

  -- The tests that Diff makes on the properties, one after another.
  pub prop_changes-or : has_breaking (prop_changes from to) ≡ (
      has_breaking (map rename_change pairs)
      || (has_breaking (map remove_change (slice_diff removed_names (map first pairs)))
          || (any (λ k. required_of (lookup k to)) (slice_diff added_names (map second pairs))
              || any
                  (λ k. has_breaking (common_change k (lookup k from) (lookup k to)))
                  (sorted_prop_keys from))))
  unfolding prop_changes pairs removed_names added_names
  prop_changes-or = simp (has_breaking-append, added-breaking, common-breaking)

  pub KeepsProps-prop_changes : KeepsProps from to → has_breaking (prop_changes from to) ≡ false
  unfolding pairs rename_pairs slice_diff keep
  KeepsProps-prop_changes h =
      let none_removed : removed_names ≡ [] = removed_names-nil.1 λ k i.
        let (p, hp) = lookup_of_has_key k from i in
        let (q, hq, _) = h.kept k p hp in has_key-lookup k to q hq in
      let none_paired : pairs ≡ [] = ap (λ r. rename_pairs from to r added_names []) none_removed in
      let optional = added_names-breaking.1 h.added_optional in
      let common = common_names-breaking.1 λ k p q hp hq.
        let (q', hq', keeps) = h.kept k p hp in
        let same : q' ≡ q = cc in subst (KeepsProp p) same keeps in
      prop_changes-or
      ∙ (or_false _ _).1 (
        ap (λ ps. has_breaking (map rename_change ps)) none_paired ∙ unfold has_breaking in refl,
        (or_false _ _).1 (
          (λ i.
                has_breaking
                  (map remove_change (slice_diff (none_removed i) (map first (none_paired i)))))
              ∙ unfold has_breaking in refl,
          (or_false _ _).1 (
            (λ i.
                  any (λ k. required_of (lookup k to))
                    (slice_diff added_names (map second (none_paired i))))
                ∙ ap (any (λ k. required_of (lookup k to))) (slice_diff-nil added_names)
                ∙ optional,
            common,
          ),
        ),
      )

  pub prop_changes-KeepsProps : has_breaking (prop_changes from to) ≡ false → KeepsProps from to
  prop_changes-KeepsProps e =
      let (p0, e1) = (or_false _ _).0 (sym prop_changes-or ∙ e) in
      let (r0, e2) = (or_false _ _).0 e1 in
      let (a0, c0) = (or_false _ _).0 e2 in
      let none_paired = pairs-nil pairs p0 in
      let none_removed =
        sym (slice_diff-nil removed_names)
        ∙ ap (λ ps. slice_diff removed_names (map first ps)) (sym none_paired)
        ∙ removed-nil _ r0 in
      let optional =
        sym (
          ap (any (λ k. required_of (lookup k to))) (
            ap (λ ps. slice_diff added_names (map second ps)) none_paired
            ∙ slice_diff-nil added_names))
        ∙ a0 in
      record {
        kept = λ k p hp.
            let (q, hq) =
              lookup_of_has_key k to
                (removed_names-nil.0 none_removed k (has_key-lookup k from p hp)) in
            (q, hq, common_names-breaking.0 c0 k p q hp hq);
        added_optional = added_names-breaking.0 optional;
      }
