-- ===== src/Registry/Git/Pull/Steps.antt =====
-- What a pull checks out.
use event_spec.Prelude.{
  ◌≡◌, ◌≢◌, ◌⊎◌, ap, inl, inr, List, [], Option, none, some, Text, Elem, Elem-append, text_eq,
  Bool-cases,
}
use event_spec.Registry.Git.{Config, Refused, check_refs, clone_args}
use event_spec.Registry.Git.Resolve.{
  Resolution, checked_out, probe_failed, unresolved, ambiguous, resolve_checkout_ref,
}
use event_spec.Registry.Git.Resolve.Agreed.{IsAgreed, resolve_checkout_ref-IsAgreed}
use event_spec.Registry.Git.Pull.{
  PullStep, run_git, PullWorld, Run, then_run, checkout_args, fetch_args, fetch_pinned_tag,
  check_out, after_steps, update, clear, pull_checked, pull,
}

-- A step of a run is its first one or one of the rest.
Elem-then_run :
    (world : PullWorld) (step a : PullStep) (run : Run)
    → Elem a (then_run world step run).0
    → (step ≡ a) ⊎ Elem a run.0
unfolding then_run
Elem-then_run world step a (steps, result) h = elim (Bool-cases (world.succeeds step)) [
  | inl so ↦ rw so at h
  | inr other ↦ elim (rw other at h) [ inl here ↦ inl here | inr there ↦ absurd there ]
]

Elem-after_steps :
    (a : PullStep) (before : List PullStep) (run : Run)
    → Elem a (after_steps before run).0
    → Elem a before ⊎ Elem a run.0
unfolding after_steps
Elem-after_steps a before (steps, result) h = Elem-append a before steps h

abbrev checkout : Text → Text → PullStep
checkout cache_dir s = run_git (checkout_args cache_dir s)

checkout-inj : (d s t : Text) → checkout d s ≡ checkout d t → s ≡ t
unfolding checkout_args
checkout-inj d s t h = cc

clone-differs : (cfg : Config) (d s : Text) → run_git (clone_args cfg d) ≢ checkout d s
unfolding checkout_args clone_args
clone-differs cfg d s h = cc

fetch-differs : (d s : Text) → run_git (fetch_args d) ≢ checkout d s
unfolding checkout_args fetch_args
fetch-differs d s h = cc

pinned_tag-differs : (cfg : Config) (d s : Text) → Elem (checkout d s) (fetch_pinned_tag cfg d) → ⊥
unfolding checkout_args fetch_pinned_tag
pinned_tag-differs cfg d s h = elim (Bool-cases (text_eq cfg.ref [])) [
  | inl empty ↦ rw empty at h
  | inr named ↦ elim (rw named at h) [ inl here ↦ cc | inr there ↦ there ]
]

-- Checking out runs one checkout, of the commit that was resolved.
checkout-check_out :
    (world : PullWorld) (d s : Text) (r : Resolution)
    → Elem (checkout d s) (check_out world d r).0
    → r ≡ checked_out s
unfolding check_out
checkout-check_out world d s (checked_out t) h = elim (Elem-then_run world _ _ _ h) [
  | inl here ↦ ap checked_out (checkout-inj d t s here)
  | inr there ↦ elim (Elem-then_run world _ _ _ there) [
    | inl load ↦ absurd cc
    | inr after ↦ absurd after
  ]
]
checkout-check_out world d s (probe_failed rev) h = absurd h
checkout-check_out world d s (unresolved value cs remedy) h = absurd h
checkout-check_out world d s (ambiguous cs) h = absurd h

-- The steps before it run none.
checkout-update :
    (world : PullWorld) (cfg : Config) (d s : Text) (run : Run)
    → Elem (checkout d s) (update world cfg d run).0
    → Elem (checkout d s) run.0
unfolding update then_run
checkout-update world cfg d s run h = elim (Bool-cases world.has_repository) [
  | inl so ↦ elim (Elem-then_run world _ _ _ (rw so at h)) [
    | inl fetch ↦ absurd (fetch-differs d s fetch)
    | inr there ↦ elim (Elem-after_steps _ _ run there) [
      | inl tag ↦ absurd (pinned_tag-differs cfg d s tag)
      | inr after ↦ after
    ]
  ]
  | inr other ↦ elim (Elem-then_run world _ _ _ (rw other at h)) [
    | inl clone ↦ absurd (clone-differs cfg d s clone)
    | inr there ↦ there
  ]
]

checkout-clear :
    (world : PullWorld) (cfg : Config) (d s : Text) (run : Run)
    → Elem (checkout d s) (clear world cfg run).0
    → Elem (checkout d s) run.0
unfolding clear
checkout-clear world cfg d s run h = elim (Bool-cases cfg.force) [
  | inl so ↦ elim (Elem-then_run world _ _ _ (rw so at h)) [
    | inl remove ↦ absurd cc
    | inr there ↦ there
  ]
  | inr other ↦ rw other at h
]

checkout-pull_checked :
    (world : PullWorld) (cfg : Config) (d s : Text) (r : Option Refused)
    → Elem (checkout d s) (pull_checked world cfg d r).0
    → resolve_checkout_ref world.git cfg ≡ checked_out s
unfolding pull_checked
checkout-pull_checked world cfg d s (some why) h = absurd h
checkout-pull_checked world cfg d s none h = elim (Elem-then_run world _ _ _ h) [
  | inl parent ↦ absurd cc
  | inr there ↦
      checkout-check_out world d s _
        (checkout-update world cfg d s _ (checkout-clear world cfg d s _ there))
]

-- The commit that a pull checks out is the one that was resolved.
checkout-pull :
    (world : PullWorld) (cfg : Config) (d s : Text)
    → Elem (checkout d s) (pull world cfg d).0
    → resolve_checkout_ref world.git cfg ≡ checked_out s
unfolding pull
checkout-pull world cfg d s h = checkout-pull_checked world cfg d s (check_refs cfg) h

-- With a ref pinned, whatever the commands do, a pull checks out a commit only when the tag, the
-- branch of the remote and, for a ref of 7 to 40 hexadecimal digits, the commit of that name each
-- resolve to this commit or to nothing.
pub pull-IsAgreed :
    (world : PullWorld) (cfg : Config) (cache_dir s : Text)
    → cfg.ref ≢ []
    → Elem (run_git (checkout_args cache_dir s)) (pull world cfg cache_dir).0
    → IsAgreed world.git cfg.ref s
pull-IsAgreed world cfg cache_dir s pinned h =
    resolve_checkout_ref-IsAgreed world.git cfg s pinned (checkout-pull world cfg cache_dir s h)
