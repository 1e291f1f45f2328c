-- ===== src/Spec/Version.antt =====
-- SchemaVer, the versions MAJOR-MINOR-PATCH of event specs (spec/schema.go, spec/loader.go):
-- parsing by `strings.Split` and `fmt.Sscanf`, printing by `fmt.Sprintf`, and comparison.
-- A text is the list of its code points; the three numbers are 64-bit `int`s.
pub mod Decimal
pub mod RoundTrip
pub mod Order
use event_spec.Prelude.{
  ℕ, zero, suc, ◌+◌, ◌-◌, ◌*◌, ◌/◌, ◌%◌, Bool, true, false, ◌&&◌, ◌||◌, Option, none, some, List,
  [], ◌∷◌, ◌++◌, Text, ltb, leb, eqb, if◌then◌else◌, ◌≡◌, refl, codes, not,
}
use event_spec.Prelude.Int.{ℤ, pos, negsuc, ◌-ℤ◌, eq_ℤ, ltb_ℤ, int_limit, wrap_int}

-- type SchemaVer
pub record SchemaVer : Type 0 where
  pub major : ℤ
  pub minor : ℤ
  pub patch : ℤ
  pub raw : Text

-- the four errors of ParseSchemaVer
pub data VersionError : Type 0 where
  not_three_parts major_not_integer minor_not_integer patch_not_integer : VersionError

pub data Parsed : Type 0 where
  ok : SchemaVer → Parsed
  err : VersionError → Parsed

prepend : ℕ → List Text → List Text
prepend c [] = (c ∷ []) ∷ []
prepend c (w ∷ ws) = (c ∷ w) ∷ ws

-- strings.Split by a separator of one character
unfoldable pub split_on : ℕ → Text → List Text
unfolding prepend
split_on sep [] = [] ∷ []
split_on sep (c ∷ s) = let rest = split_on sep s in if eqb c sep then [] ∷ rest else prepend c rest

abbrev pub is_digit : ℕ → Bool
is_digit c = leb b'0' c && leb c b'9'

-- the spaces of package fmt
is_space : ℕ → Bool
is_space c =
    (leb 0x09 c && leb c 0x0d)
    || eqb c 0x20
    || eqb c 0x85
    || eqb c 0xa0
    || eqb c 0x1680
    || (leb 0x2000 c && leb c 0x200a)
    || (leb 0x2028 c && leb c 0x2029)
    || eqb c 0x202f
    || eqb c 0x205f
    || eqb c 0x3000

-- `SkipSpace` of package fmt; a newline is an error there
skip_space : Text → Option Text
unfolding is_space
skip_space [] = some []
skip_space (c ∷ s) =
    let rest = skip_space s in
    if eqb c 0x0a then none else if is_space c then rest else some (c ∷ s)

-- The number that the leading digits spell, behind `n`. What follows them is not read.
unfoldable pub scan_value : Text → ℕ → ℕ
scan_value [] n = n
scan_value (c ∷ s) n = if is_digit c then scan_value s (n * 10 + (c - b'0')) else n

-- at least one digit, and a value that fits in 63 bits behind the sign
scan_number : Text → Option ℕ
unfolding scan_value
scan_number [] = none
scan_number (c ∷ s) = if is_digit c then some (scan_value (c ∷ s) 0) else none

positive : Option ℕ → Option ℤ
positive none = none
positive (some n) = if ltb n int_limit then some (pos n) else none

negative : Option ℕ → Option ℤ
negative none = none
negative (some zero) = some (pos 0)
negative (some (suc n)) = if ltb n int_limit then some (negsuc n) else none

scan_signed : Text → Option ℤ
unfolding scan_number positive negative
scan_signed [] = none
scan_signed (c ∷ s) =
    if eqb c b'+'
    then positive (scan_number s)
    else if eqb c b'-'
    then negative (scan_number s)
    else positive (scan_number (c ∷ s))

-- fmt.Sscanf(s, "%d", &n): `none` is an error
unfoldable pub sscanf_d : Text → Option ℤ
unfolding skip_space scan_signed
sscanf_d s = elim (skip_space s) [ none ↦ none | some t ↦ scan_signed t ]

parse_patch : Text → ℤ → ℤ → Option ℤ → Parsed
parse_patch v a b none = err patch_not_integer
parse_patch v a b (some c) = ok (record { major = a; minor = b; patch = c; raw = v })

parse_minor : Text → ℤ → Option ℤ → Text → Parsed
unfolding parse_patch
parse_minor v a none z = err minor_not_integer
parse_minor v a (some b) z = parse_patch v a b (sscanf_d z)

parse_major : Text → Option ℤ → Text → Text → Parsed
unfolding parse_minor
parse_major v none y z = err major_not_integer
parse_major v (some a) y z = parse_minor v a (sscanf_d y) z

parse_parts : Text → List Text → Parsed
unfolding parse_major
parse_parts v (x ∷ y ∷ z ∷ []) = parse_major v (sscanf_d x) y z
parse_parts v parts = err not_three_parts

-- func ParseSchemaVer
unfoldable pub parse_schema_ver : Text → Parsed
unfolding split_on parse_parts sscanf_d
parse_schema_ver v = parse_parts v (split_on b'-' v)

-- func signum
unfoldable pub signum : ℤ → ℤ
unfolding ltb_ℤ
signum n = if ltb_ℤ n (pos 0) then negsuc 0 else if ltb_ℤ (pos 0) n then pos 1 else pos 0

-- func CompareSchemaVer
unfoldable pub compare_schema_ver : SchemaVer → SchemaVer → ℤ
compare_schema_ver a b =
    if not (eq_ℤ a.major b.major)
    then signum (a.major -ℤ b.major)
    else if not (eq_ℤ a.minor b.minor)
    then signum (a.minor -ℤ b.minor)
    else signum (a.patch -ℤ b.patch)

-- fmt's %d. Each round gives one digit, the last one first; `suc n` rounds are enough for `n`.
decimal_digits : ℕ → ℕ → Text → Text
decimal_digits zero n out = out
decimal_digits (suc fuel) n out =
    let rest = decimal_digits fuel (n / 10) ((b'0' + n % 10) ∷ out) in
    if ltb n 10 then (b'0' + n) ∷ out else rest

unfoldable pub decimal : ℕ → Text
unfolding decimal_digits
decimal n = decimal_digits (suc n) n []

unfoldable pub decimal_int : ℤ → Text
unfolding decimal
decimal_int (pos n) = decimal n
decimal_int (negsuc n) = b'-' ∷ decimal (suc n)

-- fmt.Sprintf("%d-%d-%d", …)
unfoldable pub version_text : ℤ → ℤ → ℤ → Text
unfolding decimal_int
version_text a b c = decimal_int a ++ (b'-' ∷ (decimal_int b ++ (b'-' ∷ decimal_int c)))

parse_1_2_0 :
    parse_schema_ver (codes "1-2-0")
    ≡ ok (record { major = pos 1; minor = pos 2; patch = pos 0; raw = codes "1-2-0" })
unfolding parse_schema_ver
parse_1_2_0 = refl

print_10_2_305 : version_text (pos 10) (pos 2) (pos 305) ≡ codes "10-2-305"
unfolding version_text
print_10_2_305 = refl
