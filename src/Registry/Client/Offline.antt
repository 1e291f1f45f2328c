-- ===== src/Registry/Client/Offline.antt =====
-- What the client answers without the server.
use event_spec.Prelude.{
  ◌≡◌, ◌≢◌, refl, inl, inr, false, ◌&&◌, List, [], ◌∷◌, Option, none, some, Text, text_eq,
  text_eq_iff, arith, Bool-cases, if◌then◌else◌,
}
use event_spec.Registry.Client.{
  ClientConfig, Wire, bad_request, unreachable, answered, Target, no_target, Disk, Saved, unchanged,
  whole, torn, CacheRound, is_success, read_cache, write_cache, cached_or, disk_after,
  get_with_cache,
}

-- Requests with the keys of their URLs, the newest first.
abbrev pub History : Type 0
History = List (Text × CacheRound)

-- What a write leaves of the bytes it is given.
unfoldable pub left_by : Saved → Text → Option Text
left_by unchanged bytes = none
left_by whole bytes = some bytes
left_by (torn part) bytes = some part

-- What a request leaves in its file: a body that arrived whole, under a status of success.
unfoldable pub stored : Saved → Wire → Option Text
stored saved bad_request = none
stored saved (unreachable why) = none
stored saved (answered status body) =
    if body.complete && is_success status then left_by saved body.bytes else none

unfoldable pub newer : Option Text → Option Text → Option Text
newer none older = older
newer (some bytes) older = some bytes

-- What the newest request with the key that left something has left.
unfoldable pub newest_stored : Text → History → Option Text
newest_stored key [] = none
newest_stored key ((k, round) ∷ history) =
    newer (if text_eq k key then stored round.saved round.wire else none)
      (newest_stored key history)

-- The disk after a history, which the targets of the requests do not change.
unfoldable pub after_history : ClientConfig → Target Text → History → Disk
after_history cfg error [] = []
after_history cfg error ((k, round) ∷ history) =
    (get_with_cache cfg no_target error k round (after_history cfg error history)).1

read_cache-write_cache :
    (saved : Saved) (key k bytes : Text) (disk : Disk)
    → read_cache key (write_cache saved k bytes disk)
      ≡ newer (if text_eq k key then left_by saved bytes else none) (read_cache key disk)
unfolding read_cache write_cache newer left_by
read_cache-write_cache unchanged key k bytes disk = ground arith
read_cache-write_cache whole key k bytes disk = ground arith
read_cache-write_cache (torn part) key k bytes disk = ground arith

read_cache-round :
    (cfg : ClientConfig) (error : Target Text) (key k : Text) (saved : Saved) (wire : Wire)
    (disk : Disk)
    → text_eq cfg.cache_dir [] ≡ false
    → read_cache key
        (get_with_cache cfg no_target error k (record { wire = wire; saved = saved }) disk).1
      ≡ newer (if text_eq k key then stored saved wire else none) (read_cache key disk)
unfolding get_with_cache disk_after stored newer
read_cache-round cfg error key k saved bad_request disk dir = ground arith
read_cache-round cfg error key k saved (unreachable why) disk dir = ground arith
read_cache-round cfg error key k saved (answered status body) disk dir =
    ground (arith, dir, read_cache-write_cache saved key k body.bytes disk)

read_cache-after_history :
    (cfg : ClientConfig) (error : Target Text) (key : Text) (history : History)
    → text_eq cfg.cache_dir [] ≡ false
    → read_cache key (after_history cfg error history) ≡ newest_stored key history
unfolding after_history newest_stored read_cache
read_cache-after_history cfg error key [] dir = refl
read_cache-after_history cfg error key ((k, round) ∷ history) dir = rw (
  read_cache-round cfg error key k round.saved round.wire (after_history cfg error history) dir,
  read_cache-after_history cfg error key history dir,
)

-- With a cache, a request that does not reach the server answers what the newest request with the
-- same key has left in the cache, decoded, and the error of the transport when there is none,
-- whatever the requests before were and however their writes went.
pub get_with_cache-newest_stored :
    {A : Type 0} (cfg : ClientConfig) (target : Target A) (error : Target Text) (key why : Text)
    (saved : Saved) (history : History)
    → cfg.cache_dir ≢ []
    → (get_with_cache cfg target error key
        (record { wire = unreachable why; saved = saved })
        (after_history cfg error history)).0
      ≡ cached_or target why (newest_stored key history)
unfolding get_with_cache
get_with_cache-newest_stored cfg target error key why saved history dir =
    elim (Bool-cases (text_eq cfg.cache_dir [])) [
      | inl empty ↦ absurd (dir ((text_eq_iff cfg.cache_dir []).0 empty))
      | inr named ↦ rw (named, read_cache-after_history cfg error key history named)
    ]
