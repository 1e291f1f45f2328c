-- ===== src/Registry/Client.antt =====
-- The HTTP client of the registry server, registry/server/client/client.go: its reading of responses
-- and its cache on disk, which answers when the server cannot be reached. Texts are lists of code
-- points; the bytes of a body are one, too.
pub mod Offline
pub mod Methods
use event_spec.Prelude.{
  Bool, true, false, not, ◌&&◌, List, [], ◌∷◌, ◌++◌, Option, none, some, Text, codes, ℕ, eqb, any,
  map, text_eq, if◌then◌else◌,
}

-- type Config
pub record ClientConfig : Type 0 where
  pub base_url : Text
  pub api_key : Text
  pub cache_dir : Text

-- A body as it arrives: what was read of it, and whether that is all of it.
pub record ResponseBody : Type 0 where
  pub bytes : Text
  pub complete : Bool

-- One exchange: the request could not be built, the transport failed, or a response arrived.
pub data Wire : Type 0 where
  bad_request : Wire
  unreachable : Text → Wire
  answered : ℕ → ResponseBody → Wire

-- The errors that the methods return.
pub data Failure : Type 0 where
  not_encoded malformed_request unread malformed not_found : Failure
  transport : Text → Failure
  message : Text → Failure
  unexpected_status : ℕ → Failure

pub data Result (A : Type 0) : Type 0 where
  ok : A → Result A
  failed : Failure → Result A

-- The place that a body is decoded into: its value before, and what the library of JSON makes of a
-- stream and of bytes.
pub record Target (A : Type 0) : Type 0 where
  pub zero_value : A
  pub decode_stream : ResponseBody → Option A
  pub unmarshal : Text → Option A

-- dst is nil: the body is not read
abbrev pub no_target : Target Unit
no_target = record {
  zero_value = tt;
  decode_stream = λ body. some tt;
  unmarshal = λ bytes. some tt;
}

-- http.StatusOK, http.StatusCreated, http.StatusAccepted
unfoldable pub is_success : ℕ → Bool
is_success status = any (eqb status) (200 ∷ 201 ∷ 202 ∷ [])

unfoldable pub of_parse : {A : Type 0} → Option A → Result A
of_parse none = failed malformed
of_parse (some a) = ok a

-- the error of a body with one, else of the status
unfoldable pub server_error : Option Text → ℕ → Failure
server_error none status = unexpected_status status
server_error (some []) status = unexpected_status status
server_error (some (c ∷ text)) status = message (c ∷ text)

-- the cases of a status, given what a success and another status make of the body
unfoldable pub by_status : {A : Type 0} → ℕ → A → Option A → Option Text → Result A
by_status status zero_value parsed error =
    if is_success status
    then of_parse parsed
    else if eqb status 204
    then ok zero_value
    else if eqb status 404
    then failed not_found
    else failed (server_error error status)

-- func decode; `error` reads the field error of a body
unfoldable pub decode : {A : Type 0} → Target A → Target Text → ℕ → ResponseBody → Result A
decode target error status body =
    by_status status target.zero_value (target.decode_stream body) (error.decode_stream body)

-- func get
unfoldable pub get : {A : Type 0} → Target A → Target Text → Wire → Result A
get target error bad_request = failed malformed_request
get target error (unreachable why) = failed (transport why)
get target error (answered status body) = decode target error status body

-- func delete
unfoldable pub delete : Target Text → Wire → Result Unit
delete error wire = get no_target error wire

-- func post and func put, which differ in the method of the request; `encoded` is whether the body
-- could be encoded
unfoldable pub post : {A : Type 0} → Target A → Target Text → Bool → Wire → Result A
post target error encoded wire = if encoded then get target error wire else failed not_encoded

-- func sanitizeForFS
unfoldable pub sanitize_for_fs : Text → Text
sanitize_for_fs s = map (λ c. if any (eqb c) (codes "/?&=") then b'_' else c) s

unfoldable pub trim_slashes : Text → Text
trim_slashes [] = []
trim_slashes (c ∷ s) = let rest = trim_slashes s in if eqb c b'/' then rest else c ∷ s

-- A parsed URL: its path and its query.
pub record ParsedUrl : Type 0 where
  pub path : Text
  pub raw_query : Text

unfoldable pub path_and_query : ParsedUrl → Text
path_and_query u = u.path ++ (if text_eq u.raw_query [] then [] else b'?' ∷ u.raw_query)

-- func urlCacheKey, of what url.Parse returns
unfoldable pub url_cache_key : (Text → Option ParsedUrl) → Text → Text
url_cache_key parse raw = elim (parse raw) [
  | none ↦ sanitize_for_fs raw
  | some u ↦ sanitize_for_fs (trim_slashes (path_and_query u))
]

-- The files of the cache directory, by their keys.
abbrev pub Disk : Type 0
Disk = List (Text × Text)

-- func readCache
unfoldable pub read_cache : Text → Disk → Option Text
read_cache key [] = none
read_cache key ((k, bytes) ∷ disk) =
    let rest = read_cache key disk in if text_eq k key then some bytes else rest

-- What is in a file after its write: nothing new, the whole of the data, or another part of it.
pub data Saved : Type 0 where
  unchanged whole : Saved
  torn : Text → Saved

-- func writeCache, whose error is dropped
unfoldable pub write_cache : Saved → Text → Text → Disk → Disk
write_cache unchanged key bytes disk = disk
write_cache whole key bytes disk = (key, bytes) ∷ disk
write_cache (torn part) key bytes disk = (key, part) ∷ disk

-- What happens in one request with the cache.
pub record CacheRound : Type 0 where
  pub wire : Wire
  pub saved : Saved

unfoldable pub cached_or : {A : Type 0} → Target A → Text → Option Text → Result A
cached_or target why none = failed (transport why)
cached_or target why (some bytes) = of_parse (target.unmarshal bytes)

-- the response of getWithCache, of the bytes that were read
unfoldable pub answer_with_cache : {A : Type 0} → Target A → Target Text → ℕ → Text → Result A
answer_with_cache target error status bytes =
    by_status status target.zero_value (target.unmarshal bytes) (error.unmarshal bytes)

-- the disk after that response
unfoldable pub disk_after : ClientConfig → Text → Saved → ℕ → Text → Disk → Disk
disk_after cfg key saved status bytes disk =
    if is_success status && not (text_eq cfg.cache_dir [])
    then write_cache saved key bytes disk
    else disk

-- func getWithCache, of a URL with this key
unfoldable pub get_with_cache :
    {A : Type 0}
    → ClientConfig
    → Target A
    → Target Text
    → Text
    → CacheRound
    → Disk
    → Result A × Disk
get_with_cache cfg target error key round disk = elim round.wire [
  | bad_request ↦ (failed malformed_request, disk)
  | unreachable why ↦
      (cached_or target why (if text_eq cfg.cache_dir [] then none else read_cache key disk), disk)
  | answered status body ↦
      if body.complete
      then (
        answer_with_cache target error status body.bytes,
        disk_after cfg key round.saved status body.bytes disk,
      )
      else (failed unread, disk)
]
