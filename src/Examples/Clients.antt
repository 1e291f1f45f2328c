-- ===== src/Examples/Clients.antt =====
-- The client of the registry server, on concrete URLs and responses.
use event_spec.Prelude.{◌≡◌, refl, true, [], ◌∷◌, Option, none, some, Text, codes, text_eq, any}
use event_spec.Registry.Server.{without_prefix}
use event_spec.Registry.Client.{
  ClientConfig, Target, answered, unreachable, unchanged, whole, ParsedUrl, sanitize_for_fs,
  trim_slashes, path_and_query, url_cache_key, cached_or, get_with_cache,
}
use event_spec.Registry.Client.Offline.{
  History, newest_stored, after_history, get_with_cache-newest_stored,
}
use event_spec.Registry.Client.Methods.{event_url}

abbrev host : Text
host = codes "http://h"

abbrev client : ClientConfig
client = record { base_url = host; api_key = codes "t"; cache_dir = codes "/c" }

abbrev raw_text : Target Text
raw_text = record {
  zero_value = [];
  decode_stream = λ body. some body.bytes;
  unmarshal = λ bytes. some bytes;
}

abbrev parse : Text → Option ParsedUrl
parse raw = elim (without_prefix host raw) [
  | none ↦ none
  | some path ↦ some (record { path = path; raw_query = [] })
]

-- Two events whose responses share one file.
shared_file :
    url_cache_key parse (event_url host (codes "shop") (codes "cart_viewed") [])
    ≡ url_cache_key parse (event_url host (codes "shop_cart") (codes "viewed") [])
unfolding url_cache_key sanitize_for_fs trim_slashes path_and_query event_url any text_eq
    without_prefix
shared_file = refl

abbrev seen : History
seen =
    (codes "k", record { wire = unreachable []; saved = unchanged })
    ∷ (
      codes "k",
      record {
        wire = answered 200 (record { bytes = codes "{}"; complete = true });
        saved = whole;
      },
    )
    ∷ []

get_with_cache-newest_stored_example :
    (get_with_cache client raw_text raw_text
      (codes "k")
      (record { wire = unreachable (codes "refused"); saved = unchanged })
      (after_history client raw_text seen)).0
    ≡ cached_or raw_text (codes "refused") (newest_stored (codes "k") seen)
get_with_cache-newest_stored_example =
    get_with_cache-newest_stored client raw_text raw_text (codes "k") (codes "refused") unchanged
      seen (λ e. cc)
