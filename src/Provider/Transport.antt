-- ===== src/Provider/Transport.antt =====
-- The retries of the shared HTTP client, Transport.Do of provider/transport.go. How the network
-- answers each attempt, when the context is cancelled, the product of a duration and the multiplier,
-- which is a float64 product, and the random numbers are arguments.
pub mod Retry
pub mod Waits
use event_spec.Prelude.{
  ℕ, zero, suc, ◌+◌, ◌/◌, Bool, true, false, not, ◌||◌, List, [], ◌∷◌, Option, none, some, any, eqb,
  ltb, if◌then◌else◌,
}
use event_spec.Prelude.Int.{ℤ, pos, negsuc, eq_ℤ, ltb_ℤ}

-- type RetryConfig; a duration is in nanoseconds
pub record RetryConfig : Type 0 where
  pub max_retries : ℤ
  pub initial_backoff : ℤ
  pub max_backoff : ℤ
  pub jitter : Bool
  pub retryable_errors : List ℕ

-- `if x == 0 { x = fallback }`
unfoldable pub if_zero : ℤ → ℤ → ℤ
if_zero x fallback = if eq_ℤ x (pos 0) then fallback else x

-- the set `retryable` that NewTransport builds
unfoldable pub is_retryable : List ℕ → ℕ → Bool
is_retryable [] code = any (λ c. eqb c code) (429 ∷ 500 ∷ 502 ∷ 503 ∷ 504 ∷ [])
is_retryable (c ∷ codes) code = any (λ d. eqb d code) (c ∷ codes)

-- How the HTTP client answers: an error, or a response with its status code.
pub data Reply (E : Type 0) : Type 0 where
  failed : E → Reply E
  response : ℕ → Reply E

-- the last error: of the request, or "HTTP %d after attempt %d"
pub data Fault (E : Type 0) : Type 0 where
  request_failed : E → Fault E
  http_status : ℕ → ℕ → Fault E

-- What Do returns. `gave_up none` is neither a response nor an error.
pub data Verdict (E : Type 0) : Type 0 where
  responded : ℕ → Verdict E
  context_done : Verdict E
  gave_up : Option (Fault E) → Verdict E

-- What can be seen of a call: the waits and the attempts.
pub data Step : Type 0 where
  wait : ℤ → Step
  attempt : ℕ → Step

-- func jitteredBackoff; `random n` is rand.Int63n(n)
unfoldable pub jittered_backoff : (ℕ → ℕ) → ℤ → Bool → ℤ
jittered_backoff random (negsuc d) jitter = negsuc d
jittered_backoff random (pos d) jitter =
    if not jitter || eqb d 0 then pos d else pos (d / 2 + random (suc (d / 2)))

-- The rounds of `for attempt := 0; attempt <= maxRetries; attempt++`.
unfoldable pub rounds : ℤ → ℕ
rounds (pos n) = suc n
rounds (negsuc n) = 0

-- What one attempt leads to: an end, or another round with the last error.
pub data Round (E : Type 0) : Type 0 where
  end : Verdict E → Round E
  again : Fault E → Round E

module _ {E : Type 0} where
  -- the body of the loop behind the wait
  unfoldable pub judge : (ℕ → Bool) → ℕ → Bool → Reply E → Round E
  judge retryable n done (failed e) = if done then end context_done else again (request_failed e)
  judge retryable n done (response code) =
      if not (retryable code) then end (responded code) else again (http_status code (suc n))

  abbrev pub behind : Step → List Step × Verdict E → List Step × Verdict E
  behind step (steps, verdict) = (step ∷ steps, verdict)

  abbrev pub continue : Round E → (Fault E → List Step × Verdict E) → List Step × Verdict E
  continue (end verdict) rest = ([], verdict)
  continue (again fault) rest = rest fault

-- The network, the context and the clock of one call.
pub record World (E : Type 0) : Type 0 where
  pub reply : ℕ → Reply E
  pub done_in_wait : ℕ → Bool
  pub done_after : ℕ → Bool
  pub multiplied : ℤ → ℤ
  pub random : ℕ → ℕ → ℕ

module _ {E : Type 0} (w : World E) (cfg : RetryConfig) where
  abbrev pub max_backoff_of : ℤ
  max_backoff_of = if_zero cfg.max_backoff (pos 30000000000)

  abbrev pub retryable_of : ℕ → Bool
  retryable_of = is_retryable cfg.retryable_errors

  -- the wait after this one
  unfoldable pub next_backoff : ℤ → ℤ
  next_backoff backoff =
      let next = w.multiplied backoff in if ltb_ℤ max_backoff_of next then max_backoff_of else next

  -- The attempt `n`, with `left` more rounds behind it, each of which waits first.
  unfoldable pub try : ℕ → ℕ → ℤ → List Step × Verdict E
  try zero n backoff = behind (attempt n) (
      continue (judge retryable_of n (w.done_after n) (w.reply n))
        (λ fault. ([], gave_up (some fault))))
  try (suc left) n backoff = behind (attempt n) (
      continue (judge retryable_of n (w.done_after n) (w.reply n)) (λ fault.
        behind (wait (jittered_backoff (w.random n) backoff cfg.jitter)) (
          if w.done_in_wait n
          then ([], context_done)
          else try left (suc n) (next_backoff backoff))))

  -- the loop of Do; a negative number of retries makes no attempt at all
  unfoldable pub run_rounds : ℕ → List Step × Verdict E
  run_rounds zero = ([], gave_up none)
  run_rounds (suc left) = try left 0 (if_zero cfg.initial_backoff (pos 100000000))

  -- func (t *Transport) Do
  unfoldable pub do_request : List Step × Verdict E
  do_request = run_rounds (rounds (if_zero cfg.max_retries (pos 3)))
