-- ===== src/Hooks/Sampling/Rates.antt =====
-- What the rate of the strategy user_id_hash means.
use event_spec.Prelude.{
  ℕ, ◌+◌, ◌*◌, ◌^◌, ◌<◌, ◌≤◌, ◌≡◌, refl, true, false, List, [], ◌∷◌, String, arith, codes,
}
use event_spec.Prelude.Int.{pos, negsuc, pos_part, neg_part, ltb_ℤ}
use event_spec.Spec.Schema.{Float64, float_one}
use event_spec.Hooks.Sampling.{bytes, fnv32a, user_hash, normalized, hash_keep}

fnv32a-bound : (s : List ℕ) (h : ℕ) → h < 4294967296 → fnv32a s h < 4294967296
unfolding fnv32a
fnv32a-bound [] h lt = lt
fnv32a-bound (b ∷ s) h lt = fnv32a-bound s _ (omega arith)

user_hash-bound : (user : String) → user_hash user < 4294967296
unfolding user_hash
user_hash-bound user = fnv32a-bound (bytes (codes user)) 2166136261 (omega arith)

-- The order of the floats.
abbrev pub AtMost : Float64 → Float64 → Type 0
AtMost a b = pos_part a + neg_part b ≤ pos_part b + neg_part a

-- The scaled hash stays in shut form, so that no proof computes with its factor.
scaled :
    (h m : ℕ) (rate : Float64)
    → ltb_ℤ (pos (h * m)) rate ≡ true
    → h * m + neg_part rate < pos_part rate
unfolding ltb_ℤ
scaled h m (pos r) e = ground arith
scaled h m (negsuc r) e = cc

scaled_of : (n : ℕ) (rate : Float64) → n + neg_part rate < pos_part rate → ltb_ℤ (pos n) rate ≡ true
unfolding ltb_ℤ
scaled_of n (pos r) e = ground arith
scaled_of n (negsuc r) e = absurd (omega arith)

not_scaled : (n : ℕ) (rate : Float64) → AtMost rate (pos 0) → ltb_ℤ (pos n) rate ≡ false
unfolding ltb_ℤ
not_scaled n (pos r) le = ground arith
not_scaled n (negsuc r) le = refl

hash_keep_one :
    (user : String) (rate : Float64) → AtMost float_one rate → hash_keep user rate ≡ true
unfolding hash_keep normalized float_one
hash_keep_one user rate le =
    scaled_of (user_hash user * 2 ^ 1042) rate (omega (arith, le, user_hash-bound user))

hash_keep_zero :
    (user : String) (rate : Float64) → AtMost rate (pos 0) → hash_keep user rate ≡ false
unfolding hash_keep normalized
hash_keep_zero user rate le = not_scaled _ rate le

-- A user who is kept at one rate is kept at every larger rate.
pub hash_keep-AtMost :
    (user : String) (rate larger : Float64)
    → AtMost rate larger
    → hash_keep user rate ≡ true
    → hash_keep user larger ≡ true
unfolding hash_keep normalized
hash_keep-AtMost user rate larger le e =
    scaled_of (user_hash user * 2 ^ 1042) larger
      (omega (arith, scaled (user_hash user) (2 ^ 1042) rate e, le))

-- The rate 0 keeps no user, and the rate 1 every user.
pub hash_keep_edges :
    (user : String) → (hash_keep user (pos 0) ≡ false) × (hash_keep user float_one ≡ true)
unfolding float_one
hash_keep_edges user =
    (hash_keep_zero user (pos 0) (omega arith), hash_keep_one user float_one (omega arith))
