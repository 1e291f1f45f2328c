-- ===== src/Analytics/Dispatch/Schedule.antt =====
-- What a schedule of the goroutines keeps of their calls.
use event_spec.Prelude.{
  zero, subst, Option-cases, inl, inr, ℕ, suc, ◌≡◌, refl, List, [], ◌∷◌, ◌++◌, Option, none, some,
}
use mathlib.Core.List.{Perm, perm_middle}
use mathlib.Core.List.Perm
use event_spec.Analytics.Dispatch.{Observed, take_from, in_turn, next_call, interleave}

some-inj : {A : Type 0} {a b : A} → some a ≡ some b → a ≡ b
some-inj h = cc

-- One goroutine's next call, taken from all of theirs.
take_from-Perm :
    (n : ℕ) (gs : List (List Observed)) (x : Observed) (rest : List (List Observed))
    → take_from n gs ≡ some (x, rest)
    → Perm (in_turn gs) (x ∷ in_turn rest)
unfolding take_from in_turn
take_from-Perm n [] x rest h = cc
take_from-Perm zero ([] ∷ gs) x rest h = cc
take_from-Perm zero ((y ∷ calls) ∷ gs) x rest h =
    subst (λ r. Perm (y ∷ (calls ++ in_turn gs)) (r.0 ∷ in_turn r.1)) (some-inj h) (Perm.refl _)
take_from-Perm (suc n) (calls ∷ gs) x rest h = elim (Option-cases (take_from n gs)) [
  | inl no_call ↦ absurd cc (rw no_call at h)
  | inr ((y, others), one) ↦
      subst (λ r. Perm (calls ++ in_turn gs) (r.0 ∷ in_turn r.1)) (some-inj (rw one at h))
        (Perm.trans (Perm.append_left calls (take_from-Perm n gs y others one))
          (perm_middle calls (in_turn others)))
]

next_call-Perm :
    (o : Option (Observed × List (List Observed))) (gs : List (List Observed))
    (later : List (List Observed) → List Observed)
    → ((hs : List (List Observed)) → Perm (later hs) (in_turn hs))
    → ((x : Observed) (rest : List (List Observed))
        → o ≡ some (x, rest)
        → Perm (in_turn gs) (x ∷ in_turn rest))
    → Perm (next_call o gs later) (in_turn gs)
unfolding next_call
next_call-Perm none gs later h taken = h gs
next_call-Perm (some (x, rest)) gs later h taken =
    Perm.trans (Perm.cons x (h rest)) (Perm.symm (taken x rest refl))

pub interleave-Perm :
    (schedule : List ℕ) (gs : List (List Observed)) → Perm (interleave schedule gs) (in_turn gs)
unfolding interleave
interleave-Perm [] gs = Perm.refl _
interleave-Perm (n ∷ schedule) gs =
    next_call-Perm (take_from n gs) gs (interleave schedule) (interleave-Perm schedule)
      (take_from-Perm n gs)
