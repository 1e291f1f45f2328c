-- ===== src/Spec/Diff/Breaking.antt =====
-- Diff calls a newer version breaking exactly when it is not compatible.
use event_spec.Prelude.{
  Bool, true, false, not, ◌&&◌, ◌||◌, ◌≡◌, ◌↔◌, refl, sym, ap, ◌∙◌, String, arith, eq_iff, ◌==◌,
  any,
}
use event_spec.Spec.Status
use event_spec.Spec.Schema.{Float64, EventDef}
use event_spec.Spec.Change.{Change}
use event_spec.Spec.Equal.{str_slice_equal, sampling_equal, provider_overrides_equal}
use event_spec.Spec.Diff.{when, prop_changes, renamed, metadata_changed, event_changes, diff}
use event_spec.Spec.Diff.Kept.{has_breaking, has_breaking-append}
use event_spec.Spec.Diff.Props.{
  KeepsProps, or_false, KeepsProps-prop_changes, prop_changes-KeepsProps,
}

-- What Diff promises of an event that has no breaking change.
pub record Compatible (from to : EventDef) : Type 0 where
  pub name_kept : from.name ≡ to.name
  pub event_name_kept : from.event_name ≡ to.event_name
  pub type_kept : from.type ≡ to.type
  pub not_newly_deleted : to.status ≡ Status.deleted → from.status ≡ to.status
  pub props_kept : KeepsProps from.properties to.properties

has_breaking-when : (b : Bool) (c : Change) → has_breaking (when b c) ≡ b && c.breaking
unfolding has_breaking any
has_breaking-when true c = ground arith
has_breaking-when false c = refl

-- The last six tests of the event report changes that are not breaking.
event_or :
    (renamed type status deleted s c d p o m : Bool)
    → (renamed && true
        || (type && true
            || (status && deleted
                || (s && false
                    || (c && false
                        || (d && false || (p && false || (o && false || m && false))))))))
      ≡ (renamed || (type || status && deleted))
event_or renamed type status deleted s c d p o m = ground arith

module _ (show_rate : Float64 → String) (from to : EventDef) where
  event_changes-breaking : has_breaking (event_changes show_rate from to) ≡ (
      renamed from to
      || (not (from.type == to.type)
          || not (from.status == to.status) && to.status == Status.deleted))
  unfolding event_changes
  event_changes-breaking =
      simp (has_breaking-append, has_breaking-when)
        (event_or (renamed from to) (not (from.type == to.type)) (not (from.status == to.status))
          (to.status == Status.deleted) (not (sampling_equal from.sampling to.sampling))
          (not (str_slice_equal from.context_properties to.context_properties))
          (not (str_slice_equal from.destinations to.destinations))
          (not (from.property_priority == to.property_priority))
          (not (provider_overrides_equal from.provider_overrides to.provider_overrides))
          (metadata_changed from to))

  diff-breaking : has_breaking (diff show_rate from to) ≡ (
      (renamed from to
        || (not (from.type == to.type)
            || not (from.status == to.status) && to.status == Status.deleted))
      || has_breaking (prop_changes from.properties to.properties))
  unfolding diff
  diff-breaking =
      has_breaking-append (event_changes show_rate from to) _
      ∙ ap (λ b. b || has_breaking (prop_changes from.properties to.properties))
          event_changes-breaking

  -- Diff reports no breaking change exactly when the newer version keeps the names, the type, every
  -- property with its type, asks for no property that was optional or absent, keeps the enum values
  -- of every property whose `required` is unchanged, and is not newly deleted.
  pub diff-Compatible : (has_breaking (diff show_rate from to) ≡ false) ↔ Compatible from to
  unfolding renamed
  diff-Compatible = (
    λ e.
        let (event, props) =
          (or_false
              (renamed from to
                || (not (from.type == to.type)
                    || not (from.status == to.status) && to.status == Status.deleted))
              _).0
            (sym diff-breaking ∙ e) in
        record {
          name_kept = ground (arith, event, eq_iff from.name to.name);
          event_name_kept = ground (arith, event, eq_iff from.event_name to.event_name);
          type_kept = ground (arith, event, eq_iff from.type to.type);
          not_newly_deleted = λ d.
              ground (arith, event, eq_iff from.status to.status, eq_iff to.status Status.deleted);
          props_kept = prop_changes-KeepsProps from.properties to.properties props;
        },
    λ h.
        diff-breaking
        ∙ (or_false _ _).1 (
          ground (
            arith,
            h.name_kept,
            h.event_name_kept,
            h.type_kept,
            h.not_newly_deleted,
            eq_iff from.name to.name,
            eq_iff from.event_name to.event_name,
            eq_iff from.type to.type,
            eq_iff from.status to.status,
            eq_iff to.status Status.deleted,
          ),
          KeepsProps-prop_changes from.properties to.properties h.props_kept,
        ),
  )
