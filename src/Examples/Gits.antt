-- ===== src/Examples/Gits.antt =====
-- A pull of the git registry, on a concrete remote.
use event_spec.Prelude.{
  refl, true, false, List, [], ◌∷◌, none, Text, codes, Elem, inl, inr, text_eq, any, all, keep,
  if◌then◌else◌,
}
use event_spec.Registry.Git.{
  Config, added_vars, git_env, tracked_branch, check_refs, first_refusal, check_ref_name,
  is_revision_expression, is_revision_char, has_pair, has_prefix, is_sha, is_hex, clone_args,
  or_text, key_of, is_git_key, capitals, capital,
}
use event_spec.Registry.Server.{without_prefix}
use event_spec.Registry.Git.Resolve.{
  answered, Git, resolve_checkout_ref, decide, agree, resolved_of, probe_all, probe_one,
  add_candidate, is_commit, fresh, candidates_of,
}
use event_spec.Registry.Git.Resolve.Agreed.{IsAgreed}
use event_spec.Registry.Git.Pull.{
  PullWorld, run_git, checkout_args, pull, pull_checked, then_run, clear, update, check_out,
}
use event_spec.Registry.Git.Pull.Steps.{pull-IsAgreed}
use event_spec.Registry.Git.Scrubbed.{variable, git_env-variable}

abbrev pinned : Config
pinned = record {
  remote = codes "https://host/plan.git";
  branch = [];
  ref = codes "v1";
  cache_dir = codes "/c";
  specs_dir = [];
  force = false;
}

abbrev git_with_tag : Git
git_with_tag = record {
  resolve_commit =
      λ rev. if text_eq rev (codes "refs/tags/v1") then answered (codes "abc") else answered [];
  is_shallow = false;
  remote_refs = λ name. none;
}

abbrev world_with_tag : PullWorld
world_with_tag = record { succeeds = λ step. true; has_repository = false; git = git_with_tag }

abbrev cache : Text
cache = codes "/c"

checks_out : Elem (run_git (checkout_args cache (codes "abc"))) (pull world_with_tag pinned cache).0
unfolding pull pull_checked check_refs check_ref_name first_refusal is_revision_expression
    is_revision_char has_pair has_prefix without_prefix any all keep then_run clear update check_out
    resolve_checkout_ref decide agree resolved_of probe_all probe_one add_candidate is_commit fresh
    candidates_of is_sha is_hex clone_args checkout_args tracked_branch or_text text_eq
checks_out = inr (inr (inl refl))

pull-IsAgreed_example : IsAgreed git_with_tag (codes "v1") (codes "abc")
pull-IsAgreed_example = pull-IsAgreed world_with_tag pinned cache (codes "abc") (λ e. cc) checks_out

abbrev base_vars : List Text
base_vars = codes "PATH=/bin" ∷ codes "GIT_DIR=/r/.git" ∷ []

sees_prompt : Elem (variable (codes "GIT_TERMINAL_PROMPT") (codes "0")) (git_env base_vars)
unfolding git_env key_of is_git_key capitals capital has_prefix without_prefix keep
sees_prompt = inr (inl refl)

git_env-variable_example : Elem (codes "GIT_TERMINAL_PROMPT=0") added_vars
unfolding any
git_env-variable_example =
    git_env-variable base_vars (codes "TERMINAL_PROMPT") (codes "0") refl sees_prompt
