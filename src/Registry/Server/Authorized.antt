-- ===== src/Registry/Server/Authorized.antt =====
-- Who reaches a handler of the registry server.
use event_spec.Prelude.{
  ◌≡◌, ◌≢◌, ◌≤◌, ◌↔◌, refl, ap, sym, ◌∙◌, Option, none, some, [], ◌∷◌, ◌++◌, String, Text, codes,
  Bool-cases, Option-cases, inl, inr, arith, eqb, eqb_iff, ltb,
}
use event_spec.Registry.Server.{
  role_level, without_prefix, or_empty_text, extract_bearer, served, check_role, check_token,
  with_auth,
}

pub without_prefix-append : (prefix s : Text) → without_prefix prefix (prefix ++ s) ≡ some s
unfolding without_prefix
without_prefix-append [] s = refl
without_prefix-append (c ∷ prefix) s = ground (arith, eqb_iff c c, without_prefix-append prefix s)

pub without_prefix-some :
    (prefix s rest : Text) → without_prefix prefix s ≡ some rest → s ≡ prefix ++ rest
unfolding without_prefix
without_prefix-some [] s rest h = cc
without_prefix-some (c ∷ prefix) [] rest h = cc
without_prefix-some (c ∷ prefix) (d ∷ s) rest h = elim (Bool-cases (eqb c d)) [
  | inl same ↦
      let later = without_prefix-some prefix s rest (rw same at h) in
      cc ((eqb_iff c d).0 same, later)
  | inr other ↦ cc (rw other at h)
]

-- The header carries the token of a key whose role is high enough.
pub record IsAuthorized (hash : Text → Text) (keys : Text → Option (String × String))
    (min_role : String) (header : Text) (user role : String) : Type 0 where
  pub token : Text
  pub presented : header ≡ codes "Bearer " ++ token
  pub not_empty : token ≢ []
  pub known : keys (hash token) ≡ some (user, role)
  pub enough : role_level min_role ≤ role_level role

check_role-served :
    (min_role user role : String) (o : Option (String × String))
    → (check_role min_role o ≡ served user role)
      ↔ ((o ≡ some (user, role)) × (role_level min_role ≤ role_level role))
unfolding check_role
check_role-served min_role user role none = (λ h. cc, λ h. cc h.0)
check_role-served min_role user role (some (u, r)) =
    elim (Bool-cases (ltb (role_level r) (role_level min_role))) [
      | inl low ↦ rw low (
        λ h. cc,
        λ (e, enough).
            let same : r ≡ role = cc e in absurd (ground (arith, ap role_level same, low, enough)),
      )
      | inr high ↦ rw high (
        λ h. let same : r ≡ role = cc h in (cc h, ground (arith, ap role_level same, high)),
        λ (e, enough). cc e,
      )
    ]

check_token-served :
    (hash : Text → Text) (keys : Text → Option (String × String)) (min_role user role : String)
    (token : Text)
    → (check_token hash keys min_role token ≡ served user role) ↔ (
        (token ≢ [])
        × (keys (hash token) ≡ some (user, role))
        × (role_level min_role ≤ role_level role))
unfolding check_token
check_token-served hash keys min_role user role [] = (λ h. cc, λ h. absurd (h.0 refl))
check_token-served hash keys min_role user role (c ∷ token) =
    let answer = check_role-served min_role user role (keys (hash (c ∷ token))) in
    (
      λ h. let (known, enough) = answer.0 h in ((λ e. cc), known, enough),
      λ (_, known, enough). answer.1 (known, enough),
    )

extract_bearer-append : (token : Text) → extract_bearer (codes "Bearer " ++ token) ≡ token
unfolding extract_bearer or_empty_text
extract_bearer-append token = rw (without_prefix-append (codes "Bearer ") token) refl

presented_token :
    (header : Text) → extract_bearer header ≢ [] → header ≡ codes "Bearer " ++ extract_bearer header
unfolding extract_bearer or_empty_text
presented_token header h = elim (Option-cases (without_prefix (codes "Bearer ") header)) [
  | inl absent ↦ absurd (h (rw absent refl))
  | inr (token, there) ↦ rw there (without_prefix-some (codes "Bearer ") header token there)
]

-- A handler runs, as a user with a role, exactly when the header is "Bearer " and a token that is
-- not empty, whose hash is the one of a key of that user and role, and the role is at least the
-- one that the handler asks for.
pub with_auth-IsAuthorized :
    (hash : Text → Text) (keys : Text → Option (String × String)) (min_role : String)
    (header : Text) (user role : String)
    → (with_auth hash keys min_role header ≡ served user role)
      ↔ IsAuthorized hash keys min_role header user role
unfolding with_auth
with_auth-IsAuthorized hash keys min_role header user role =
    let answer = check_token-served hash keys min_role user role (extract_bearer header) in
    (
      λ h.
          let (not_empty, known, enough) = answer.0 h in
          record {
            token = extract_bearer header;
            presented = presented_token header not_empty;
            not_empty = not_empty;
            known = known;
            enough = enough;
          },
      λ a.
          let same : extract_bearer header ≡ a.token =
            ap extract_bearer a.presented ∙ extract_bearer-append a.token in
          answer.1
            ((λ e. a.not_empty (sym same ∙ e)), ap (λ t. keys (hash t)) same ∙ a.known, a.enough),
    )
