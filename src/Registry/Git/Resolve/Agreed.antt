-- ===== src/Registry/Git/Resolve/Agreed.antt =====
-- The commit of a pinned ref.
use event_spec.Prelude.{
  ◌≡◌, ◌≢◌, ◌⊎◌, refl, ap, sym, subst, ◌∙◌, inl, inr, true, false, not, List, [], ◌∷◌, Text, any,
  keep, All, text_eq, text_eq_iff, Bool-cases,
}
use event_spec.Registry.Git.{Config, is_sha}
use event_spec.Registry.Git.Resolve.{
  Probe, answered, broken, tag, branch, commit, RefCandidate, checked_out, Git, probed, fresh,
  is_commit, add_candidate, probe_one, probe_all, resolved_of, agree, decide, tag_ref, remote_ref,
  candidates_of, resolve_checkout_ref,
}

-- A query that found the commit, or none.
abbrev pub Fits : Text → Probe → Type 0
Fits s p = (p ≡ answered s) ⊎ (p ≡ answered [])

checked_out-inj : {s t : Text} → checked_out s ≡ checked_out t → s ≡ t
checked_out-inj h = cc

none_differs :
    (s : Text) (cs : List RefCandidate)
    → any (λ d. not (text_eq d.sha s)) cs ≡ false
    → All (λ d. d.sha ≡ s) cs
unfolding any
none_differs s [] h = tt
none_differs s (c ∷ cs) h = elim (Bool-cases (text_eq c.sha s)) [
  | inl same ↦ ((text_eq_iff c.sha s).0 same, none_differs s cs (rw same at h))
  | inr differs ↦ absurd cc (rw differs at h)
]

-- The candidates behind a commit that is checked out all name it, and there is one.
agree-All :
    (git : Git) (value : Text) (all cs : List RefCandidate) (s : Text)
    → agree git value all cs ≡ checked_out s
    → All (λ d. d.sha ≡ s) cs × (cs ≢ [])
unfolding agree
agree-All git value all [] s h = cc
agree-All git value all (c ∷ cs) s h = elim (Bool-cases (any (λ d. not (text_eq d.sha c.sha)) cs)) [
  | inl differs ↦ absurd cc (rw differs at h)
  | inr same ↦
      let is_s : c.sha ≡ s = checked_out-inj (rw same at h) in
      ((is_s, subst (λ t. All (λ d. d.sha ≡ t) cs) is_s (none_differs c.sha cs same)), λ e. cc)
]

resolved_of-All :
    (s : Text) (cs : List RefCandidate)
    → All (λ d. d.sha ≡ s) (resolved_of cs)
    → All (λ d. (d.sha ≡ s) ⊎ (d.sha ≡ [])) cs
unfolding resolved_of keep
resolved_of-All s [] h = tt
resolved_of-All s (c ∷ cs) h = elim (Bool-cases (text_eq c.sha [])) [
  | inl empty ↦ (inr ((text_eq_iff c.sha []).0 empty), resolved_of-All s cs (rw empty at h))
  | inr named ↦ let (now, later) = rw named at h in (inl now, resolved_of-All s cs later)
]

fits : (s sha : Text) → (sha ≡ s) ⊎ (sha ≡ []) → Fits s (answered sha)
fits s sha (inl same) = inl (ap answered same)
fits s sha (inr empty) = inr (ap answered empty)

-- The three queries, when the last one is made.
decide-three :
    (git : Git) (value s : Text) (a b c : RefCandidate) (p q r : Probe)
    → decide git value (probe_one a p (probe_one b q (probe_one c r (probed [])))) ≡ checked_out s
    → Fits s p × Fits s q × Fits s r
unfolding decide probe_one add_candidate
decide-three git value s a b c broken q r h = cc
decide-three git value s a b c (answered x) broken r h = cc
decide-three git value s a b c (answered x) (answered y) broken h = cc
decide-three git value s a b c (answered x) (answered y) (answered z) h =
    let cs = record a { sha = x } ∷ record b { sha = y } ∷ record c { sha = z } ∷ [] in
    let (f, (g, (k, _))) = resolved_of-All s cs (agree-All git value cs (resolved_of cs) s h).0 in
    (fits s x f, fits s y g, fits s z k)

decide-two :
    (git : Git) (value s : Text) (a b c : RefCandidate) (p q : Probe)
    → c.sha ≡ []
    → decide git value (probe_one a p (probe_one b q (add_candidate c (probed [])))) ≡ checked_out s
    → Fits s p × Fits s q
unfolding decide probe_one add_candidate
decide-two git value s a b c broken q empty h = cc
decide-two git value s a b c (answered x) broken empty h = cc
decide-two git value s a b c (answered x) (answered y) empty h =
    let cs = record a { sha = x } ∷ record b { sha = y } ∷ c ∷ [] in
    let (f, (g, _)) = resolved_of-All s cs (agree-All git value cs (resolved_of cs) s h).0 in
    (fits s x f, fits s y g)

probe_all-sha :
    (git : Git) (ref : Text)
    → is_sha ref ≡ true
    → probe_all git (candidates_of ref)
      ≡ probe_one (fresh tag (tag_ref ref)) (git.resolve_commit (tag_ref ref)) (
          probe_one
            (fresh branch (remote_ref ref))
            (git.resolve_commit (remote_ref ref))
            (probe_one (fresh commit ref) (git.resolve_commit ref) (probed [])))
unfolding probe_all candidates_of is_commit fresh
probe_all-sha git ref h = rw h

probe_all-name :
    (git : Git) (ref : Text)
    → is_sha ref ≡ false
    → probe_all git (candidates_of ref)
      ≡ probe_one (fresh tag (tag_ref ref)) (git.resolve_commit (tag_ref ref)) (
          probe_one
            (fresh branch (remote_ref ref))
            (git.resolve_commit (remote_ref ref))
            (add_candidate (record (fresh commit ref) { skipped = true }) (probed [])))
unfolding probe_all candidates_of is_commit fresh
probe_all-name git ref h = rw h

-- What a pinned ref can mean names the commit, or nothing: a tag, a branch of the remote, and the
-- commit itself when the ref has the form of one.
abbrev pub IsAgreed : Git → Text → Text → Type 0
IsAgreed git ref s =
    Fits s (git.resolve_commit (tag_ref ref))
    × Fits s (git.resolve_commit (remote_ref ref))
    × ((is_sha ref ≡ false) ⊎ Fits s (git.resolve_commit ref))

-- A pull of a pinned ref checks out a commit only when the tag, the branch of the remote and, for a
-- ref of 7 to 40 hexadecimal digits, the commit of that name each resolve to this commit or to
-- nothing.
pub resolve_checkout_ref-IsAgreed :
    (git : Git) (cfg : Config) (s : Text)
    → cfg.ref ≢ []
    → resolve_checkout_ref git cfg ≡ checked_out s
    → IsAgreed git cfg.ref s
unfolding resolve_checkout_ref fresh
resolve_checkout_ref-IsAgreed git cfg s pinned h = elim (Bool-cases (text_eq cfg.ref [])) [
  | inl empty ↦ absurd (pinned ((text_eq_iff cfg.ref []).0 empty))
  | inr named ↦
      let chosen : decide git cfg.ref (probe_all git (candidates_of cfg.ref)) ≡ checked_out s =
        rw named at h in
      elim (Bool-cases (is_sha cfg.ref)) [
        | inl sha ↦
            let (f, g, k) =
              decide-three git cfg.ref s _ _ _ _ _ _
                (ap (decide git cfg.ref) (sym (probe_all-sha git cfg.ref sha)) ∙ chosen) in
            (f, g, inr k)
        | inr name ↦
            let (f, g) =
              decide-two git cfg.ref s _ _ _ _ _ refl
                (ap (decide git cfg.ref) (sym (probe_all-name git cfg.ref name)) ∙ chosen) in
            (f, g, inl name)
      ]
]
