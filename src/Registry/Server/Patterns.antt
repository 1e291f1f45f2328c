-- ===== src/Registry/Server/Patterns.antt =====
-- Which events a pattern of a source takes.
use event_spec.Prelude.{
  ℕ, ◌≡◌, ◌≢◌, ◌⊎◌, ◌↔◌, refl, ap, ◌∙◌, true, false, some, [], ◌∷◌, ◌++◌, Text, codes, Bool-cases,
  Option-cases, inl, inr, arith, text_eq, text_eq_iff, length, length-append,
}
use event_spec.Registry.Server.{without_prefix, without_suffix, is_there, match_prefix, match_glob}
use event_spec.Registry.Server.Authorized.{without_prefix-append, without_prefix-some}

text_eq-longer : (c : ℕ) (s suffix : Text) → text_eq (c ∷ (s ++ suffix)) suffix ≡ false
text_eq-longer c s suffix = elim (Bool-cases (text_eq (c ∷ (s ++ suffix)) suffix)) [
  | inl same ↦ absurd (
      omega (
        arith,
        ap length ((text_eq_iff (c ∷ (s ++ suffix)) suffix).0 same),
        length-append s suffix,
      ))
  | inr other ↦ other
]

without_suffix-append :
    (suffix s : Text) → suffix ≢ [] → without_suffix suffix (s ++ suffix) ≡ some s
unfolding without_suffix
without_suffix-append [] s h = absurd (h refl)
without_suffix-append (d ∷ suffix) [] h = rw ((text_eq_iff (d ∷ suffix) (d ∷ suffix)).1 refl) refl
without_suffix-append (d ∷ suffix) (c ∷ s) h =
    rw (text_eq-longer c s (d ∷ suffix), without_suffix-append (d ∷ suffix) s h) refl

starts_with :
    (prefix target : Text)
    → (is_there (without_prefix prefix target) ≡ true) ↔ ((rest : Text) × (target ≡ prefix ++ rest))
starts_with prefix target = (
  λ h. elim (Option-cases (without_prefix prefix target)) [
    | inl absent ↦ absurd cc (ap is_there absent, h)
    | inr (rest, there) ↦ (rest, without_prefix-some prefix target rest there)
  ],
  λ (rest, e).
      ap (λ t. is_there (without_prefix prefix t)) e
      ∙ ap is_there (without_prefix-append prefix rest),
)

-- A pattern that ends in "/**" takes the name before it, and every name below that one.
pub match_glob-below :
    (prefix target : Text)
    → (match_glob (prefix ++ codes "/**") target ≡ true)
      ↔ (((rest : Text) × (target ≡ (prefix ++ (b'/' ∷ [])) ++ rest)) ⊎ (target ≡ prefix))
unfolding match_glob match_prefix
match_glob-below prefix target =
    let below = starts_with (prefix ++ (b'/' ∷ [])) target in
    let exact = text_eq_iff target prefix in
    rw (without_suffix-append (codes "/**") prefix (λ h. cc)) (
      λ h. elim (Bool-cases (is_there (without_prefix (prefix ++ (b'/' ∷ [])) target))) [
        | inl there ↦ inl (below.0 there)
        | inr absent ↦ inr (exact.0 (ground (arith, h, absent)))
      ],
      λ h. elim h [
        | inl more ↦ ground (arith, below.1 more)
        | inr same ↦ ground (arith, exact.1 same)
      ],
    )
