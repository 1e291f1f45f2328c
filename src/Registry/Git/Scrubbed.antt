-- ===== src/Registry/Git/Scrubbed.antt =====
-- The environment of git.
use event_spec.Prelude.{
  ◌≡◌, subst, refl, inl, inr, Bool, true, false, not, ◌∷◌, ◌++◌, List, [], some, Text, codes, keep,
  eqb, any, Elem, Elem-append, Bool-cases,
}
use event_spec.Registry.Server.{without_prefix}
use event_spec.Registry.Git.{has_prefix, key_of, capital, capitals, is_git_key, added_vars, git_env}

-- The variable of a name and a value.
abbrev pub variable : Text → Text → Text
variable name value = name ++ (b'=' ∷ value)

key_of-variable :
    (name value : Text)
    → any (λ c. eqb c b'=') name ≡ false
    → key_of (variable name value) ≡ some name
unfolding key_of any
key_of-variable [] value h = refl
key_of-variable (c ∷ name) value h = elim (Bool-cases (eqb c b'=')) [
  | inl ends ↦ absurd cc (rw ends at h)
  | inr goes ↦ rw (goes, key_of-variable name value (rw goes at h))
]

kept-passes : (p : Text → Bool) (a : Text) (xs : List Text) → Elem a (keep p xs) → p a ≡ true
unfolding keep
kept-passes p a [] h = absurd h
kept-passes p a (x ∷ xs) h = elim (Bool-cases (p x)) [
  | inl so ↦ elim (rw so at h) [
    | inl here ↦ subst (λ y. p y ≡ true) here so
    | inr there ↦ kept-passes p a xs there
  ]
  | inr other ↦ kept-passes p a xs (rw other at h)
]

-- A name that begins with GIT_ is one that gitEnv drops.
is_git_key_prefixed : (name : Text) → is_git_key (some (codes "GIT_" ++ name)) ≡ true
unfolding is_git_key capitals capital has_prefix without_prefix
is_git_key_prefixed name = refl

-- git sees a variable whose name begins with GIT_ only when it is one of the two that gitEnv adds.
pub git_env-variable :
    (base : List Text) (name value : Text)
    → any (λ c. eqb c b'=') name ≡ false
    → Elem (variable (codes "GIT_" ++ name) value) (git_env base)
    → Elem (variable (codes "GIT_" ++ name) value) added_vars
unfolding git_env any
git_env-variable base name value plain h = elim (Elem-append _ (keep _ base) added_vars h) [
  | inl kept ↦
      let dropped : not (is_git_key (key_of (variable (codes "GIT_" ++ name) value))) ≡ true =
        kept-passes _ _ base kept in
      let key = key_of-variable (codes "GIT_" ++ name) value plain in
      absurd cc (rw (key, is_git_key_prefixed name) at dropped)
  | inr added ↦ added
]
