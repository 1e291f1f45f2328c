-- ===== src/Registry/Store/Keys/Unique.antt =====
-- The constraint UNIQUE on the hashes of the API keys.
use event_spec.Prelude.{
  ℕ, ◌≡◌, refl, Bool, true, false, not, ◌&&◌, List, [], ◌∷◌, ◌++◌, Option, String, Text, text_eq,
  text_eq_iff, any, keep, arith, if-both, if◌then◌else◌,
}
use event_spec.Prelude.Int.{ℤ, pos, eq_ℤ}
use event_spec.Registry.Store.{Engine, Reply, failed, writing, KeyRow, Database}
use event_spec.Registry.Store.Keys.{Clock, new_key_row, create_api_key, revoke_api_key}

if-false : (a b : Bool) → (if a then true else b) ≡ false → (a ≡ false) × (b ≡ false)
if-false true b h = cc
if-false false b h = (refl, h)

-- No two keys have the same hash, which is the constraint UNIQUE of the column.
abbrev pub HaveOwnHashes : List KeyRow → Type 0
HaveOwnHashes [] = Unit
HaveOwnHashes (row ∷ rows) =
    (any (λ r. text_eq r.key_hash row.key_hash) rows ≡ false) × HaveOwnHashes rows

pub any-keep :
    (p q : KeyRow → Bool) (rows : List KeyRow) → any p rows ≡ false → any p (keep q rows) ≡ false
unfolding any keep
any-keep p q [] none_there = refl
any-keep p q (row ∷ rows) none_there = ground (arith, any-keep p q rows)

any-append-fresh :
    (p : KeyRow → Bool) (rows : List KeyRow) (row : KeyRow)
    → any p rows ≡ false
    → p row ≡ false
    → any p (rows ++ (row ∷ [])) ≡ false
unfolding any
any-append-fresh p [] row h new = rw new refl
any-append-fresh p (r ∷ rows) row h new = ground (arith, any-append-fresh p rows row, h, new)

text_eq-sym : (s t : Text) → text_eq s t ≡ false → text_eq t s ≡ false
text_eq-sym s t differs = ground (arith, text_eq_iff s t, text_eq_iff t s)

append-HaveOwnHashes :
    (rows : List KeyRow) (row : KeyRow)
    → any (λ r. text_eq r.key_hash row.key_hash) rows ≡ false
    → HaveOwnHashes rows
    → HaveOwnHashes (rows ++ (row ∷ []))
unfolding any
append-HaveOwnHashes [] row fresh h = (refl, tt)
append-HaveOwnHashes (r ∷ rows) row fresh (own, h) =
    let (differs, later) =
      if-false (text_eq r.key_hash row.key_hash) (any (λ r. text_eq r.key_hash row.key_hash) rows)
        fresh in
    (
      any-append-fresh (λ x. text_eq x.key_hash r.key_hash) rows row own
          (text_eq-sym r.key_hash row.key_hash differs),
      append-HaveOwnHashes rows row later h,
    )

keep-HaveOwnHashes :
    (q : KeyRow → Bool) (rows : List KeyRow) → HaveOwnHashes rows → HaveOwnHashes (keep q rows)
unfolding keep
keep-HaveOwnHashes q [] h = tt
keep-HaveOwnHashes q (row ∷ rows) (own, h) =
    if-both HaveOwnHashes (q row) (row ∷ keep q rows) (keep q rows)
      (any-keep (λ r. text_eq r.key_hash row.key_hash) q rows own, keep-HaveOwnHashes q rows h)
      (keep-HaveOwnHashes q rows h)

free-or :
    {A : Type 0} (P : A → Type 0) (writes taken : Bool) (x y : A)
    → (taken ≡ false → P x)
    → P y
    → P (if writes && not taken then x else y)
free-or P true true x y px py = py
free-or P true false x y px py = px refl
free-or P false taken x y px py = py

module _ {Doc : Type 0} where
  -- A call that creates or revokes an API key keeps the hashes of the keys different from each other,
  -- whatever the engine does.
  pub create_api_key-HaveOwnHashes :
      (clock : Clock) (engine : Engine) (key_hash : Text) (role name created_by : String)
      → (expires_at : Option ℕ) (db : Database Doc) → HaveOwnHashes db.api_keys
      → HaveOwnHashes
          (create_api_key clock engine key_hash role name created_by expires_at db).1.api_keys
  unfolding create_api_key new_key_row
  create_api_key-HaveOwnHashes clock engine key_hash role name created_by expires_at db h =
      free-or (λ (r : Reply ℕ × Database Doc). HaveOwnHashes r.1.api_keys) engine.on_write
        (any (λ row. text_eq row.key_hash key_hash) db.api_keys) _ (failed writing, db)
        (λ fresh.
          append-HaveOwnHashes db.api_keys
            (new_key_row clock engine key_hash role name created_by expires_at) fresh h)
        h

  pub revoke_api_key-HaveOwnHashes :
      (engine : Engine) (id : ℤ) (db : Database Doc)
      → HaveOwnHashes db.api_keys
      → HaveOwnHashes (revoke_api_key engine id db).1.api_keys
  unfolding revoke_api_key
  revoke_api_key-HaveOwnHashes engine id db h =
      if-both (λ (r : Reply Unit × Database Doc). HaveOwnHashes r.1.api_keys) engine.on_write _
        (failed writing, db) (keep-HaveOwnHashes (λ row. not (eq_ℤ (pos row.id) id)) db.api_keys h)
        h
