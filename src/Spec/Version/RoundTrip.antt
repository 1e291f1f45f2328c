-- ===== src/Spec/Version/RoundTrip.antt =====
-- Reading back a printed version, and what a parsed version is made of.
use event_spec.Prelude.{
  ℕ, ◌<◌, ◌≡◌, refl, Text, List, [], ◌∷◌, ◌++◌, Option, none, some, false, All, Holds, arith, eqb,
  Bool-cases, inl, inr, ltb, ltb→lt, subst,
}
use event_spec.Prelude.Int.{ℤ, pos, negsuc, int_limit}
use event_spec.Spec.Version.{
  SchemaVer, Parsed, ok, err, prepend, split_on, is_space, skip_space, scan_number, positive,
  scan_signed, sscanf_d, parse_patch, parse_minor, parse_major, parse_parts, parse_schema_ver,
  decimal, version_text,
}
use event_spec.Spec.Version.Decimal.{IsDigit, decimal-IsDigit, sscanf_d-decimal}

-- The text has no character `sep`.
abbrev pub Lacks : ℕ → Text → Type 0
Lacks sep = All (λ c. eqb c sep ≡ false)

Lacks-digits : (s : Text) → All IsDigit s → Lacks b'-' s
Lacks-digits [] h = tt
Lacks-digits (c ∷ s) (hc, hs) = (ground arith, Lacks-digits s hs)

split_on-Lacks : (sep : ℕ) (s : Text) → Lacks sep s → split_on sep s ≡ s ∷ []
unfolding split_on
split_on-Lacks sep [] h = refl
split_on-Lacks sep (c ∷ s) (hc, hs) = rw (hc, split_on-Lacks sep s hs) refl

split_on-append :
    (sep : ℕ) (s t : Text) → Lacks sep s → split_on sep (s ++ (sep ∷ t)) ≡ s ∷ split_on sep t
unfolding split_on
split_on-append sep [] t h = ground arith
split_on-append sep (c ∷ s) t (hc, hs) = rw (hc, split_on-append sep s t hs) refl

-- The steps of the parser, with the parser of one number shut.
parse_schema_ver-parts : (v : Text) → parse_schema_ver v ≡ parse_parts v (split_on b'-' v)
unfolding parse_schema_ver
parse_schema_ver-parts v = refl

parse_parts-ok :
    (v x y z : Text) {a b c : ℤ}
    → sscanf_d x ≡ some a
    → sscanf_d y ≡ some b
    → sscanf_d z ≡ some c
    → parse_parts v (x ∷ y ∷ z ∷ []) ≡ ok (record { major = a; minor = b; patch = c; raw = v })
unfolding parse_parts
parse_parts-ok v x y z ha hb hc = ground arith

version_text-natural :
    (a b c : ℕ)
    → version_text (pos a) (pos b) (pos c) ≡ decimal a ++ (b'-' ∷ (decimal b ++ (b'-' ∷ decimal c)))
unfolding version_text
version_text-natural a b c = refl

split-version_text :
    (a b c : ℕ)
    → split_on b'-' (version_text (pos a) (pos b) (pos c)) ≡ decimal a ∷ decimal b ∷ decimal c ∷ []
split-version_text a b c =
    let digits : (n : ℕ) → Lacks b'-' (decimal n) =
      λ n. Lacks-digits (decimal n) (decimal-IsDigit n) in
    rw version_text-natural (
      rw
        (
          split_on-append b'-' (decimal a) _ (digits a),
          split_on-append b'-' (decimal b) _ (digits b),
          split_on-Lacks b'-' (decimal c) (digits c),
        )
        refl)

-- A version of three numbers below 2 ^ 63 is read back from its print, with the print as `raw`.
pub parse-version_text :
    (a b c : ℕ)
    → a < int_limit
    → b < int_limit
    → c < int_limit
    → parse_schema_ver (version_text (pos a) (pos b) (pos c))
      ≡ ok (record {
        major = pos a;
        minor = pos b;
        patch = pos c;
        raw = version_text (pos a) (pos b) (pos c);
      })
parse-version_text a b c ha hb hc =
    rw (parse_schema_ver-parts, split-version_text a b c)
      (parse_parts-ok _ _ _ _ (sscanf_d-decimal a ha) (sscanf_d-decimal b hb)
        (sscanf_d-decimal c hc))

-- The pieces that Split makes have no separator.
Lacks-prepend :
    (sep c : ℕ) (ws : List Text)
    → eqb c sep ≡ false
    → All (Lacks sep) ws
    → All (Lacks sep) (prepend c ws)
unfolding prepend
Lacks-prepend sep c [] h hs = ((h, tt), tt)
Lacks-prepend sep c (w ∷ ws) h (hw, hs) = ((h, hw), hs)

Lacks-split_on : (sep : ℕ) (s : Text) → All (Lacks sep) (split_on sep s)
unfolding split_on
Lacks-split_on sep [] = (tt, tt)
Lacks-split_on sep (c ∷ s) = elim (Bool-cases (eqb c sep)) [
  | inl same ↦ rw same (tt, Lacks-split_on sep s)
  | inr other ↦ rw other (Lacks-prepend sep c (split_on sep s) other (Lacks-split_on sep s))
]

-- An `int` that is not negative.
abbrev pub IsNatural : ℤ → Type 0
IsNatural (pos n) = n < int_limit
IsNatural (negsuc n) = ⊥

pub record IsVersion (v : SchemaVer) : Type 0 where
  pub major_natural : IsNatural v.major
  pub minor_natural : IsNatural v.minor
  pub patch_natural : IsNatural v.patch

Lacks-skip_space : (s : Text) → Lacks b'-' s → Holds (Lacks b'-') (skip_space s)
unfolding skip_space
Lacks-skip_space [] h = tt
Lacks-skip_space (c ∷ s) (hc, hs) = elim (Bool-cases (eqb c 0x0a)) [
  | inl newline ↦ rw newline tt
  | inr other ↦ rw other (elim (Bool-cases (is_space c)) [
    | inl space ↦ rw space (Lacks-skip_space s hs)
    | inr solid ↦ rw solid (hc, hs)
  ])
]

positive-IsNatural : (o : Option ℕ) → Holds IsNatural (positive o)
unfolding positive
positive-IsNatural none = tt
positive-IsNatural (some n) = elim (Bool-cases (ltb n int_limit)) [
  | inl fits ↦ rw fits (ltb→lt n int_limit fits)
  | inr large ↦ rw large tt
]

scan_signed-IsNatural : (s : Text) → Lacks b'-' s → Holds IsNatural (scan_signed s)
unfolding scan_signed
scan_signed-IsNatural [] h = tt
scan_signed-IsNatural (c ∷ s) (hc, hs) = elim (Bool-cases (eqb c b'+')) [
  | inl plus ↦ rw plus (positive-IsNatural (scan_number s))
  | inr other ↦ rw (other, hc) (positive-IsNatural (scan_number (c ∷ s)))
]

sscanf_d-IsNatural : (s : Text) → Lacks b'-' s → Holds IsNatural (sscanf_d s)
unfolding sscanf_d
sscanf_d-IsNatural s h = go (skip_space s) (Lacks-skip_space s h)
  where
    go :
        (o : Option Text)
        → Holds (Lacks b'-') o
        → Holds IsNatural (elim o [ none ↦ none | some t ↦ scan_signed t ])
    go none g = tt
    go (some t) g = scan_signed-IsNatural t g

abbrev IsGood : Text → Parsed → Type 0
IsGood s (ok v) = IsVersion v × (v.raw ≡ s)
IsGood s (err e) = Unit

parse_patch-IsGood :
    (s : Text) (a b : ℤ) (o : Option ℤ)
    → IsNatural a
    → IsNatural b
    → Holds IsNatural o
    → IsGood s (parse_patch s a b o)
unfolding parse_patch
parse_patch-IsGood s a b none ha hb hc = tt
parse_patch-IsGood s a b (some c) ha hb hc =
    (record { major_natural = ha; minor_natural = hb; patch_natural = hc }, refl)

parse_minor-IsGood :
    (s : Text) (a : ℤ) (o : Option ℤ) (z : Text)
    → IsNatural a
    → Holds IsNatural o
    → Lacks b'-' z
    → IsGood s (parse_minor s a o z)
unfolding parse_minor
parse_minor-IsGood s a none z ha hb hz = tt
parse_minor-IsGood s a (some b) z ha hb hz =
    parse_patch-IsGood s a b (sscanf_d z) ha hb (sscanf_d-IsNatural z hz)

parse_major-IsGood :
    (s : Text) (o : Option ℤ) (y z : Text)
    → Holds IsNatural o
    → Lacks b'-' y
    → Lacks b'-' z
    → IsGood s (parse_major s o y z)
unfolding parse_major
parse_major-IsGood s none y z ha hy hz = tt
parse_major-IsGood s (some a) y z ha hy hz =
    parse_minor-IsGood s a (sscanf_d y) z ha (sscanf_d-IsNatural y hy) hz

parse_parts-IsGood :
    (s : Text) (parts : List Text) → All (Lacks b'-') parts → IsGood s (parse_parts s parts)
unfolding parse_parts
parse_parts-IsGood s [] h = tt
parse_parts-IsGood s (x ∷ []) h = tt
parse_parts-IsGood s (x ∷ y ∷ []) h = tt
parse_parts-IsGood s (x ∷ y ∷ z ∷ []) (hx, (hy, (hz, _))) =
    parse_major-IsGood s (sscanf_d x) y z (sscanf_d-IsNatural x hx) hy hz
parse_parts-IsGood s (x ∷ y ∷ z ∷ w ∷ ws) h = tt

-- The text is kept, and no number of a parsed version is negative: `-` separates the numbers.
pub parse-IsVersion :
    (s : Text) {v : SchemaVer} → parse_schema_ver s ≡ ok v → IsVersion v × (v.raw ≡ s)
parse-IsVersion s e =
    subst (IsGood s) e
      (rw parse_schema_ver-parts (parse_parts-IsGood s (split_on b'-' s) (Lacks-split_on b'-' s)))
