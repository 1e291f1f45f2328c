-- ===== src/Provider/Transport/Retry.antt =====
-- What a call with retries returns.
use event_spec.Prelude.{
  ℕ, zero, suc, ◌+◌, ◌<◌, ◌≡◌, ◌⊎◌, inl, inr, refl, true, false, List, Bool-cases, arith, subst,
  sym,
}
use event_spec.Prelude.Int.{ℤ, pos}
use event_spec.Provider.Transport.{
  RetryConfig, Reply, failed, response, Fault, Verdict, responded, context_done, gave_up, Step,
  Round, end, again, World, judge, try, run_rounds, do_request, rounds, if_zero, retryable_of,
  next_backoff, continue,
}

eq_or_lt : (m n : ℕ) → m < suc n → (m ≡ n) ⊎ (m < n)
eq_or_lt m n h = ground arith

module _ {E : Type 0} (w : World E) (cfg : RetryConfig) where
  -- The attempt did not settle the call: an error, or a status that is to be retried.
  abbrev pub IsTransient : Reply E → Type 0
  IsTransient (failed e) = Unit
  IsTransient (response code) = retryable_of w cfg code ≡ true

  abbrev pub AllTransient : ℕ → Type 0
  AllTransient n = (m : ℕ) → m < n → IsTransient (w.reply m)

  -- What an answer of the call says of the attempts, `total` of which are allowed.
  abbrev pub Explains : ℕ → Verdict E → Type 0
  Explains total (responded code) =
      (n : ℕ) × (n < total)
      × (w.reply n ≡ response code)
      × (retryable_of w cfg code ≡ false)
      × AllTransient n
  Explains total context_done =
      (n : ℕ) × (n < total) × ((w.done_in_wait n ≡ true) ⊎ (w.done_after n ≡ true)) × AllTransient n
  Explains total (gave_up fault) = AllTransient total

  one_more : (n : ℕ) → AllTransient n → IsTransient (w.reply n) → AllTransient (suc n)
  one_more n before now m below = elim (eq_or_lt m n below) [
    | inl same ↦ subst (λ k. IsTransient (w.reply k)) (sym same) now
    | inr less ↦ before m less
  ]

  -- One attempt: an end that explains itself, or a transient failure.
  abbrev IsJudged : ℕ → ℕ → Round E → Type 0
  IsJudged total n (end verdict) = Explains total verdict
  IsJudged total n (again fault) = IsTransient (w.reply n)

  judge-IsJudged :
      (total n : ℕ) (r : Reply E)
      → n < total
      → AllTransient n
      → w.reply n ≡ r
      → IsJudged total n (judge (retryable_of w cfg) n (w.done_after n) r)
  unfolding judge
  judge-IsJudged total n (failed e) below before is = elim (Bool-cases (w.done_after n)) [
    | inl done ↦ rw done (n, below, inr done, before)
    | inr going ↦ rw (going, is) tt
  ]
  judge-IsJudged total n (response code) below before is =
      elim (Bool-cases (retryable_of w cfg code)) [
        | inl transient ↦ rw (transient, is) transient
        | inr final ↦ rw final (n, below, is, final, before)
      ]

  continue-Explains :
      (total n : ℕ) (round : Round E) (rest : Fault E → List Step × Verdict E)
      → IsJudged total n round
      → ((fault : Fault E) → IsTransient (w.reply n) → Explains total (rest fault).1)
      → Explains total (continue round rest).1
  continue-Explains total n (end verdict) rest h next = h
  continue-Explains total n (again fault) rest h next = next fault h

  try-Explains :
      (left n total : ℕ) (backoff : ℤ)
      → n + suc left ≡ total
      → AllTransient n
      → Explains total (try w cfg left n backoff).1
  unfolding try
  try-Explains zero n total backoff sum before =
      continue-Explains total n _ _
        (judge-IsJudged total n (w.reply n) (omega (arith, sum)) before refl)
        (λ fault now. subst AllTransient (omega (arith, sum)) (one_more n before now))
  try-Explains (suc left) n total backoff sum before =
      continue-Explains total n _ _
        (judge-IsJudged total n (w.reply n) (omega (arith, sum)) before refl)
        (λ fault now. elim (Bool-cases (w.done_in_wait n)) [
          | inl done ↦ rw done (n, omega (arith, sum), inl done, before)
          | inr going ↦ rw going (
              try-Explains left (suc n) total (next_backoff w cfg backoff) (omega (arith, sum))
                (one_more n before now))
        ])

  run_rounds-Explains : (total : ℕ) → Explains total (run_rounds w cfg total).1
  unfolding run_rounds
  run_rounds-Explains zero = λ m below. absurd (omega (arith, below))
  run_rounds-Explains (suc left) =
      try-Explains left 0 (suc left) (if_zero cfg.initial_backoff (pos 100000000)) (omega arith)
        (λ m below. absurd (omega (arith, below)))

  -- A response that Do returns is the answer of an attempt with a status that is not retried, a
  -- cancelled context ended an attempt or the wait behind it, and otherwise every attempt that is
  -- allowed was made; before the last attempt, each one failed or had a status that is retried.
  pub do_request-Explains : Explains (rounds (if_zero cfg.max_retries (pos 3))) (do_request w cfg).1
  unfolding do_request
  do_request-Explains = run_rounds-Explains (rounds (if_zero cfg.max_retries (pos 3)))
