-- ===== src/Registry/Store/Keys/Access.antt =====
-- Which API keys the store lets in.
use event_spec.Prelude.{
  ℕ, ◌≡◌, refl, ap, subst, ◌∙◌, inl, inr, Bool, true, false, not, List, [], ◌∷◌, ◌++◌, Option, none,
  some, String, Text, text_eq, text_eq_refl, text_eq_iff, any, keep, ltb, arith, Bool-cases,
  if◌then◌else◌,
}
use event_spec.Prelude.Int.{ℤ, pos, eq_ℤ}
use event_spec.Registry.Store.{Engine, querying, reply, missing, failed, KeyRow, Database}
use event_spec.Registry.Store.Keys.{
  Clock, find_key, is_before, is_expired, read_key, lookup_api_key, expires_column, new_key_row,
  create_api_key, revoke_api_key,
}
use event_spec.Registry.Store.Keys.Unique.{HaveOwnHashes, any-keep}

find_key-append :
    (key_hash : Text) (row : KeyRow) (rows : List KeyRow)
    → any (λ r. text_eq r.key_hash key_hash) rows ≡ false
    → find_key key_hash (rows ++ (row ∷ []))
      ≡ (if text_eq row.key_hash key_hash then some row else none)
unfolding find_key any
find_key-append key_hash row [] fresh = refl
find_key-append key_hash row (r ∷ rows) fresh = ground (arith, find_key-append key_hash row rows)

find_key-none :
    (key_hash : Text) (rows : List KeyRow)
    → any (λ r. text_eq r.key_hash key_hash) rows ≡ false
    → find_key key_hash rows ≡ none
unfolding any find_key
find_key-none key_hash [] fresh = refl
find_key-none key_hash (row ∷ rows) fresh = ground (arith, find_key-none key_hash rows)

abbrev pub without_id : ℤ → Option KeyRow → Option KeyRow
without_id id none = none
without_id id (some row) = if eq_ℤ (pos row.id) id then none else some row

find_key-keep :
    (id : ℤ) (key_hash : Text) (rows : List KeyRow)
    → HaveOwnHashes rows
    → find_key key_hash (keep (λ row. not (eq_ℤ (pos row.id) id)) rows)
      ≡ without_id id (find_key key_hash rows)
unfolding find_key keep
find_key-keep id key_hash [] h = refl
find_key-keep id key_hash (row ∷ rows) (own, h) =
    elim (Bool-cases (text_eq row.key_hash key_hash)) [
      | inl same ↦ elim (Bool-cases (eq_ℤ (pos row.id) id)) [
        | inl revoked ↦
            rw (same, revoked)
              (find_key-none key_hash (keep (λ r. not (eq_ℤ (pos r.id) id)) rows) (
                any-keep (λ r. text_eq r.key_hash key_hash) (λ r. not (eq_ℤ (pos r.id) id)) rows
                  (subst (λ k. any (λ r. text_eq r.key_hash k) rows ≡ false)
                    ((text_eq_iff row.key_hash key_hash).0 same) own)))
        | inr other ↦ rw other (rw same (rw other refl))
      ]
      | inr differs ↦ elim (Bool-cases (eq_ℤ (pos row.id) id)) [
        | inl revoked ↦ rw (differs, revoked) (find_key-keep id key_hash rows h)
        | inr other ↦ rw other (rw differs (find_key-keep id key_hash rows h))
      ]
    ]

abbrev pub past : Clock → ℕ → Option ℕ → Bool
past clock now none = false
past clock now (some t) = ltb (clock.whole t) now

is_expired-past :
    (clock : Clock) (now : ℕ) (expires_at : Option ℕ)
    → is_expired clock now (expires_column clock expires_at) ≡ past clock now expires_at
unfolding is_expired expires_column is_before
is_expired-past clock now none = refl
is_expired-past clock now (some t) = rw (clock.format_nonempty t, clock.parse-format t) refl

module _ {Doc : Type 0} (clock : Clock) where
  -- the rows of the keys after a call
  abbrev keys_of : {A : Type 0} → A × Database Doc → List KeyRow
  keys_of (answer, db) = db.api_keys

  create_api_key-rows :
      (engine : Engine) (key_hash : Text) (role name created_by : String) (expires_at : Option ℕ)
      → (db : Database Doc) → engine.on_write ≡ true
      → any (λ row. text_eq row.key_hash key_hash) db.api_keys ≡ false
      → keys_of (create_api_key clock engine key_hash role name created_by expires_at db)
        ≡ db.api_keys ++ (new_key_row clock engine key_hash role name created_by expires_at ∷ [])
  unfolding create_api_key
  create_api_key-rows engine key_hash role name created_by expires_at db writes fresh =
      simp (writes, fresh) refl

  revoke_api_key-rows :
      (engine : Engine) (id : ℤ) (db : Database Doc)
      → engine.on_write ≡ true
      → keys_of (revoke_api_key engine id db) ≡ keep (λ row. not (eq_ℤ (pos row.id) id)) db.api_keys
  unfolding revoke_api_key
  revoke_api_key-rows engine id db writes = simp writes refl

  -- A key that CreateAPIKey has stored under a new hash lets its holder in, with its role, until the
  -- second of its expiry is past, and is ErrNotFound from then on; a key without an expiry lets its
  -- holder in at any time. A lookup whose query fails answers that error.
  pub lookup_api_key-create_api_key :
      (engine query : Engine) (now : ℕ) (key_hash : Text) (role name created_by : String)
      → (expires_at : Option ℕ) (db : Database Doc) → engine.on_write ≡ true
      → any (λ row. text_eq row.key_hash key_hash) db.api_keys ≡ false
      → lookup_api_key clock query now key_hash
          (create_api_key clock engine key_hash role name created_by expires_at db).1
        ≡ (if query.on_query
            then if past clock now expires_at then missing else reply (created_by, role)
            else failed querying)
  unfolding lookup_api_key new_key_row read_key
  lookup_api_key-create_api_key engine query now key_hash role name created_by expires_at db writes
        fresh =
      let row = new_key_row clock engine key_hash role name created_by expires_at in
      let found =
        ap (find_key key_hash)
          (create_api_key-rows engine key_hash role name created_by expires_at db writes fresh)
        ∙ (find_key-append key_hash row db.api_keys fresh
            ∙ ap (λ b. if b then some row else none) (text_eq_refl key_hash)) in
      ap (λ r. if query.on_query then r else failed querying)
        (ap (read_key clock now) found
          ∙ ap (λ b. if b then missing else reply (created_by, role))
              (is_expired-past clock now expires_at))

  -- RevokeAPIKey, when it succeeds and no two rows have the same hash, refuses from then on the hash
  -- of the row with that id, and only that one: any other lookup answers what it answered before.
  pub lookup_api_key-revoke_api_key :
      (engine query : Engine) (now : ℕ) (id : ℤ) (key_hash : Text) (db : Database Doc)
      → engine.on_write ≡ true
      → HaveOwnHashes db.api_keys
      → lookup_api_key clock query now key_hash (revoke_api_key engine id db).1 ≡ (
          if query.on_query
          then read_key clock now (without_id id (find_key key_hash db.api_keys))
          else failed querying)
  unfolding lookup_api_key
  lookup_api_key-revoke_api_key engine query now id key_hash db writes own =
      ap (λ found. if query.on_query then read_key clock now found else failed querying)
        (ap (find_key key_hash) (revoke_api_key-rows engine id db writes)
          ∙ find_key-keep id key_hash db.api_keys own)
