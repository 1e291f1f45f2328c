-- ===== src/Provider/Transport/Waits.antt =====
-- The waits of a call with retries, and how often it asks.
use event_spec.Prelude.{
  ℕ, suc, ◌/◌, ◌<◌, ◌≤◌, ◌≡◌, inl, inr, refl, Bool, not, ◌||◌, Bool-cases, arith, eqb,
}
use event_spec.Prelude.Int.{ℤ, pos, negsuc}
use event_spec.Provider.Transport.{jittered_backoff}

-- rand.Int63n(n), for n > 0, is below n.
abbrev pub IsRandom : (ℕ → ℕ) → Type 0
IsRandom random = (n : ℕ) → random (suc n) < suc n

-- What a wait for `d` with jitter can be: at least the half of it, and at most `d`.
abbrev pub IsJittered : ℤ → ℤ → Type 0
IsJittered (pos d) (pos s) = (d / 2 ≤ s) × (s ≤ d)
IsJittered (pos d) (negsuc s) = ⊥
IsJittered (negsuc d) s = s ≡ negsuc d

-- A jittered wait is between the half of the backoff and the backoff, both included.
pub jittered_backoff-IsJittered :
    (random : ℕ → ℕ) (d : ℤ) (jitter : Bool)
    → IsRandom random
    → IsJittered d (jittered_backoff random d jitter)
unfolding jittered_backoff
jittered_backoff-IsJittered random (negsuc d) jitter h = refl
jittered_backoff-IsJittered random (pos d) jitter h =
    let below = h (d / 2) in
    elim (Bool-cases (not jitter || eqb d 0)) [
      | inl plain ↦ rw plain (omega arith, omega arith)
      | inr jitters ↦ rw jitters (omega arith, omega (arith, below))
    ]
