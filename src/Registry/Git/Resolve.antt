-- ===== src/Registry/Git/Resolve.antt =====
-- The commit that a pull checks out: resolveCheckoutRef and unresolvedRef of
-- registry/git/resolver.go. What git answers to a query of the cache or of the remote is an argument.
pub mod Agreed
use event_spec.Prelude.{
  Bool, true, false, not, ◌&&◌, List, [], ◌∷◌, ◌++◌, Option, none, some, Text, codes, any, all,
  keep, text_eq, if◌then◌else◌,
}
use event_spec.Registry.Git.{Config, tracked_branch, is_sha}

-- func gitResolveCommit: a commit, the empty text for none, or an error of git
pub data Probe : Type 0 where
  answered : Text → Probe
  broken : Probe

pub data CandidateKind : Type 0 where
  tag branch commit : CandidateKind

-- type refCandidate
pub record RefCandidate : Type 0 where
  pub kind : CandidateKind
  pub rev : Text
  pub sha : Text
  pub skipped : Bool

-- type refRemedy
pub data RefRemedy : Type 0 where
  unknown absent_on_remote shallow_commit : RefRemedy
  stale_cache : List Text → RefRemedy

-- What resolveCheckoutRef returns: a commit or one of its errors.
pub data Resolution : Type 0 where
  checked_out : Text → Resolution
  probe_failed : Text → Resolution
  unresolved : Text → List RefCandidate → RefRemedy → Resolution
  ambiguous : List RefCandidate → Resolution

-- What git answers: a revision of the cache, whether the cache is shallow, and the refs of a name on
-- the remote, `none` when it cannot be asked.
pub record Git : Type 0 where
  pub resolve_commit : Text → Probe
  pub is_shallow : Bool
  pub remote_refs : Text → Option (List Text)

unfoldable pub remote_remedy : Option (List Text) → RefRemedy
remote_remedy none = unknown
remote_remedy (some []) = absent_on_remote
remote_remedy (some (ref ∷ refs)) = stale_cache (ref ∷ refs)

-- func unresolvedRef, the remedy
unfoldable pub remedy_for : Git → Text → RefRemedy
remedy_for git value =
    if is_sha value
    then if git.is_shallow then shallow_commit else unknown
    else remote_remedy (git.remote_refs value)

unfoldable pub fresh : CandidateKind → Text → RefCandidate
fresh kind rev = record { kind = kind; rev = rev; sha = []; skipped = false }

unfoldable pub is_commit : CandidateKind → Bool
is_commit tag = false
is_commit branch = false
is_commit commit = true

-- The candidates after the loop, or the revision at which a query failed.
pub data Probed : Type 0 where
  probed : List RefCandidate → Probed
  failed_at : Text → Probed

unfoldable pub add_candidate : RefCandidate → Probed → Probed
add_candidate c (probed cs) = probed (c ∷ cs)
add_candidate c (failed_at rev) = failed_at rev

unfoldable pub probe_one : RefCandidate → Probe → Probed → Probed
probe_one c (answered sha) rest = add_candidate (record c { sha = sha }) rest
probe_one c broken rest = failed_at c.rev

-- the loop over the candidates
unfoldable pub probe_all : Git → List RefCandidate → Probed
probe_all git [] = probed []
probe_all git (c ∷ cs) =
    let rest = probe_all git cs in
    if is_commit c.kind && not (is_sha c.rev)
    then add_candidate (record c { skipped = true }) rest
    else probe_one c (git.resolve_commit c.rev) rest

-- the candidates that named a commit
unfoldable pub resolved_of : List RefCandidate → List RefCandidate
resolved_of cs = keep (λ c. not (text_eq c.sha [])) cs

-- the agreement of those
unfoldable pub agree : Git → Text → List RefCandidate → List RefCandidate → Resolution
agree git value candidates [] = unresolved value candidates (remedy_for git value)
agree git value candidates (c ∷ cs) =
    if any (λ d. not (text_eq d.sha c.sha)) cs then ambiguous (c ∷ cs) else checked_out c.sha

unfoldable pub decide : Git → Text → Probed → Resolution
decide git value (probed cs) = agree git value cs (resolved_of cs)
decide git value (failed_at rev) = probe_failed rev

abbrev pub tag_ref : Text → Text
tag_ref name = codes "refs/tags/" ++ name

abbrev pub remote_ref : Text → Text
remote_ref name = codes "refs/remotes/origin/" ++ name

unfoldable pub candidates_of : Text → List RefCandidate
candidates_of ref = fresh tag (tag_ref ref) ∷ fresh branch (remote_ref ref) ∷ fresh commit ref ∷ []

unfoldable pub resolve_branch : Git → Text → Probe → Resolution
resolve_branch git name broken = probe_failed (remote_ref name)
resolve_branch git name (answered []) =
    unresolved name (fresh branch (remote_ref name) ∷ []) (remedy_for git name)
resolve_branch git name (answered (c ∷ sha)) = checked_out (c ∷ sha)

-- func resolveCheckoutRef
unfoldable pub resolve_checkout_ref : Git → Config → Resolution
resolve_checkout_ref git cfg =
    if text_eq cfg.ref []
    then resolve_branch git (tracked_branch cfg)
        (git.resolve_commit (remote_ref (tracked_branch cfg)))
    else decide git cfg.ref (probe_all git (candidates_of cfg.ref))
