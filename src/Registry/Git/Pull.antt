-- ===== src/Registry/Git/Pull.antt =====
-- Pull of registry/git/resolver.go, as the commands that it runs and what it returns. What each
-- command does is an argument.
pub mod Steps
use event_spec.Prelude.{
  Bool, true, false, List, [], ◌∷◌, ◌++◌, Option, none, some, Text, codes, text_eq, if◌then◌else◌,
}
use event_spec.Registry.Git.{Config, Refused, check_refs, clone_args}
use event_spec.Registry.Git.Resolve.{
  Git, RefCandidate, RefRemedy, Resolution, checked_out, probe_failed, unresolved, ambiguous,
  tag_ref, resolve_checkout_ref,
}

-- The steps of a pull that change something outside of the process.
pub data PullStep : Type 0 where
  make_parent : PullStep
  remove_cache : PullStep
  run_git : List Text → PullStep
  load_cache : PullStep

-- What happens in one pull: which steps succeed, whether the cache has a repository when that is
-- asked, and what git answers afterwards. The result of fetchPinnedTag is dropped.
pub record PullWorld : Type 0 where
  pub succeeds : PullStep → Bool
  pub has_repository : Bool
  pub git : Git

-- the results of Pull
pub data Pulled : Type 0 where
  done : Pulled
  refused : Refused → Pulled
  failed_step : PullStep → Pulled
  not_resolved : Resolution → Pulled

-- A pull: its steps in order, and its result.
abbrev pub Run : Type 0
Run = List PullStep × Pulled

-- one step, and what follows when it succeeds
unfoldable pub then_run : PullWorld → PullStep → Run → Run
then_run world step (steps, result) =
    if world.succeeds step then (step ∷ steps, result) else (step ∷ [], failed_step step)

unfoldable pub checkout_args : Text → Text → List Text
checkout_args cache_dir sha =
    codes "-C" ∷ cache_dir ∷ codes "checkout" ∷ codes "--detach" ∷ sha ∷ []

unfoldable pub fetch_args : Text → List Text
fetch_args cache_dir = codes "-C" ∷ cache_dir ∷ codes "fetch" ∷ codes "origin" ∷ []

-- func fetchPinnedTag
unfoldable pub fetch_pinned_tag : Config → Text → List PullStep
fetch_pinned_tag cfg cache_dir =
    if text_eq cfg.ref []
    then []
    else run_git (
        codes "-C"
        ∷ cache_dir
        ∷ codes "fetch"
        ∷ codes "origin"
        ∷ (tag_ref cfg.ref ++ (b':' ∷ tag_ref cfg.ref))
        ∷ [])
      ∷ []

-- from the resolution on
unfoldable pub check_out : PullWorld → Text → Resolution → Run
check_out world cache_dir (checked_out sha) =
    then_run world (run_git (checkout_args cache_dir sha)) (then_run world load_cache ([], done))
check_out world cache_dir (probe_failed rev) = ([], not_resolved (probe_failed rev))
check_out world cache_dir (unresolved value cs remedy) =
    ([], not_resolved (unresolved value cs remedy))
check_out world cache_dir (ambiguous cs) = ([], not_resolved (ambiguous cs))

unfoldable pub after_steps : List PullStep → Run → Run
after_steps before (steps, result) = (before ++ steps, result)

-- the clone, or the fetch with the fetch of the pinned tag
unfoldable pub update : PullWorld → Config → Text → Run → Run
update world cfg cache_dir rest =
    if world.has_repository
    then then_run world (run_git (fetch_args cache_dir))
        (after_steps (fetch_pinned_tag cfg cache_dir) rest)
    else then_run world (run_git (clone_args cfg cache_dir)) rest

unfoldable pub clear : PullWorld → Config → Run → Run
clear world cfg rest = if cfg.force then then_run world remove_cache rest else rest

-- what follows the check of the names
unfoldable pub pull_checked : PullWorld → Config → Text → Option Refused → Run
pull_checked world cfg cache_dir (some why) = ([], refused why)
pull_checked world cfg cache_dir none = then_run world make_parent (
    clear world cfg
      (update world cfg cache_dir (check_out world cache_dir (resolve_checkout_ref world.git cfg))))

-- func Pull, into the directory that cacheDir gives
unfoldable pub pull : PullWorld → Config → Text → Run
pull world cfg cache_dir = pull_checked world cfg cache_dir (check_refs cfg)
