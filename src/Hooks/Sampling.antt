-- ===== src/Hooks/Sampling.antt =====
-- The sampling hook (hooks/sampling/hook.go), with the FNV-1a hash of hash/fnv.
pub mod Rates
use Prim.Native.Nat.{bit_xor}
use event_spec.Prelude.{
  ℕ, ◌+◌, ◌*◌, ◌/◌, ◌%◌, ◌^◌, ◌<◌, ◌≤◌, ◌≡◌, refl, Bool, true, false, ◌||◌, List, [], ◌∷◌, ◌++◌,
  Option, none, some, String, Text, arith, codes, ltb, if◌then◌else◌, ◌==◌, eq_iff,
}
use event_spec.Prelude.Int.{ℤ, pos, negsuc, ltb_ℤ}
use event_spec.Spec.Schema.{Float64, float_one, SamplingConfig, EventDef}
use event_spec.Hooks.{HookContext, Answer, cancel, pass, Hook}

-- the UTF-8 bytes of a code point
unfoldable pub utf8 : ℕ → List ℕ
utf8 c =
    if ltb c 0x80
    then c ∷ []
    else if ltb c 0x800
    then (0xc0 + c / 64) ∷ (0x80 + c % 64) ∷ []
    else if ltb c 0x10000
    then (0xe0 + c / 4096) ∷ (0x80 + c / 64 % 64) ∷ (0x80 + c % 64) ∷ []
    else (0xf0 + c / 262144) ∷ (0x80 + c / 4096 % 64) ∷ (0x80 + c / 64 % 64) ∷ (0x80 + c % 64) ∷ []

unfoldable pub bytes : Text → List ℕ
bytes [] = []
bytes (c ∷ s) = utf8 c ++ bytes s

-- fnv.New32a: xor each byte in, and multiply by the prime modulo 2 ^ 32
unfoldable pub fnv32a : List ℕ → ℕ → ℕ
fnv32a [] h = h
fnv32a (b ∷ s) h = fnv32a s (bit_xor h b * 16777619 % 4294967296)

unfoldable pub user_hash : String → ℕ
unfolding utf8 bytes fnv32a
user_hash user = fnv32a (bytes (codes user)) 2166136261

-- A quotient h / 2 ^ 32 is exact in a float64: it is this multiple of 2 ^ -1074.
unfoldable pub normalized : ℕ → Float64
normalized h = pos (h * 2 ^ 1042)

-- func hashKeep
unfoldable pub hash_keep : String → Float64 → Bool
hash_keep user rate = ltb_ℤ (normalized (user_hash user)) rate

pub data Sampled : Type 0 where
  err_sampled : Sampled

unfoldable pub verdict : Bool → Answer Sampled
verdict true = pass
verdict false = cancel err_sampled

-- The `switch` of Before. `draw` is what rand.Float64 returned.
unfoldable pub decide_sampling : Float64 → HookContext → Option SamplingConfig → Answer Sampled
unfolding verdict
decide_sampling draw hc none = pass
decide_sampling draw hc (some cfg) =
    if cfg.strategy == "none" || cfg.strategy == ""
    then pass
    else if cfg.strategy == "user_id_hash"
    then verdict (hash_keep hc.context.user_id cfg.rate)
    else if cfg.strategy == "random"
    then verdict (ltb_ℤ draw cfg.rate)
    else pass

unfoldable pub of_lookup : Float64 → HookContext → Option EventDef → Answer Sampled
unfolding decide_sampling
of_lookup draw hc none = pass
of_lookup draw hc (some def) = decide_sampling draw hc def.sampling

-- func (h *Hook) Before
unfoldable pub sampling_before : (String → Option EventDef) → Float64 → Hook Sampled
unfolding of_lookup
sampling_before lookup draw hc = of_lookup draw hc (lookup hc.event_name)

hash_of_foobar : user_hash "foobar" ≡ 0xbf9cf968
unfolding user_hash
hash_of_foobar = refl
