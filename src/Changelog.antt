-- ===== src/Changelog.antt =====
-- internal/changelog/changelog.go: the sections of CHANGELOG.md. Texts are lists of code points, and
-- trimming white space is an argument.
pub mod Listed
use event_spec.Prelude.{
  Bool, true, false, ◌&&◌, List, [], ◌∷◌, ◌++◌, Option, none, some, Text, codes, ℕ, suc, leb, eqb,
  any, text_eq, if◌then◌else◌,
}
use event_spec.Spec.Version.{is_digit, split_on}
use event_spec.Registry.Server.{without_prefix, is_there}

abbrev pub and_then : {A B : Type 0} → Option A → (A → Option B) → Option B
and_then none f = none
and_then (some a) f = f a

infixl 5 ◌>>=◌
abbrev ◌>>=◌ : {A B : Type 0} → Option A → (A → Option B) → Option B
o >>= f = and_then o f

-- strings.ReplaceAll of "\r\n" by "\n"
unfoldable pub without_returns : Text → Text
without_returns [] = []
without_returns (c ∷ s) =
    let rest = without_returns s in
    if eqb c 13 && is_there (without_prefix (10 ∷ []) s) then rest else c ∷ rest

-- func splitLines
unfoldable pub split_lines : Text → List Text
split_lines doc = split_on 10 (without_returns doc)

-- the digits before a character, and what follows it
unfoldable pub digits_until : ℕ → Text → Option (Text × Text)
digits_until stop [] = none
digits_until stop (c ∷ s) =
    let rest = digits_until stop s in
    if eqb c stop
    then some ([], s)
    else if is_digit c
    then elim rest [ none ↦ none | some (digits, after) ↦ some (c ∷ digits, after) ]
    else none

-- \d+ and the character behind it
unfoldable pub some_digits_until : ℕ → Text → Option (Text × Text)
some_digits_until stop s = elim (digits_until stop s) [
  | none ↦ none
  | some ([], after) ↦ none
  | some (c ∷ digits, after) ↦ some (c ∷ digits, after)
]

-- d stands for a digit, another character for itself
unfoldable pub has_shape : Text → Text → Bool
has_shape [] [] = true
has_shape [] (c ∷ s) = false
has_shape (p ∷ shape) [] = false
has_shape (p ∷ shape) (c ∷ s) = (if eqb p b'd' then is_digit c else eqb p c) && has_shape shape s

-- versionHeadingRe, and its group
unfoldable pub version_of : Text → Option Text
version_of line = do
  rest ← without_prefix (codes "## [") line
  (major, rest) ← some_digits_until b'.' rest
  (minor, rest) ← some_digits_until b'.' rest
  (patch, rest) ← some_digits_until b']' rest
  if has_shape (codes " - dddd-dd-dd") rest
      then some (major ++ (b'.' ∷ (minor ++ (b'.' ∷ patch))))
      else none

abbrev pub unreleased_heading : Text
unreleased_heading = codes "## [Unreleased]"

-- What Versions takes a line for.
pub data Heading : Type 0 where
  no_heading unreleased wrong : Heading
  released : Text → Heading

unfoldable pub of_version : Option Text → Heading
of_version none = wrong
of_version (some v) = released v

unfoldable pub heading_of : Text → Heading
heading_of line =
    if is_there (without_prefix (codes "## [") line)
    then if text_eq line unreleased_heading then unreleased else of_version (version_of line)
    else no_heading

-- What Versions returns; the errors name a line.
pub data Versions : Type 0 where
  listed : List Text → Versions
  duplicate_unreleased : ℕ → Versions
  wrong_heading : ℕ → Text → Versions
  duplicate_version : ℕ → Text → Versions

unfoldable pub add_version : Text → Versions → Versions
add_version v (listed vs) = listed (v ∷ vs)
add_version v (duplicate_unreleased n) = duplicate_unreleased n
add_version v (wrong_heading n line) = wrong_heading n line
add_version v (duplicate_version n w) = duplicate_version n w

-- one line of the loop of Versions, and what the loop makes of the lines below
unfoldable pub scan_line :
    ℕ → Bool → List Text → Text → Heading → (Bool → List Text → Versions) → Versions
scan_line n again seen line no_heading below = below again seen
scan_line n again seen line unreleased below =
    if again then duplicate_unreleased n else below true seen
scan_line n again seen line wrong below = wrong_heading n line
scan_line n again seen line (released v) below =
    if any (text_eq v) seen then duplicate_version n v else add_version v (below again (v ∷ seen))

-- the loop of Versions, from a line on
unfoldable pub scan : ℕ → Bool → List Text → List Text → Versions
scan n again seen [] = listed []
scan n again seen (line ∷ lines) =
    scan_line n again seen line (heading_of line) (λ again seen. scan (suc n) again seen lines)

-- func Versions
unfoldable pub versions : Text → Versions
versions doc = scan 1 false [] (split_lines doc)

-- the lines before the next "## " heading
unfoldable pub until_heading : List Text → List Text
until_heading [] = []
until_heading (line ∷ lines) =
    let rest = until_heading lines in
    if is_there (without_prefix (codes "## ") line) then [] else line ∷ rest

-- func sectionBody, before the lines are joined; `none` when the heading is not there
unfoldable pub section_lines : (Text → Bool) → List Text → Option (List Text)
section_lines match_line [] = none
section_lines match_line (line ∷ lines) =
    let rest = section_lines match_line lines in
    if match_line line then some (until_heading lines) else rest

unfoldable pub join_lines : List Text → Text
join_lines [] = []
join_lines (line ∷ []) = line
join_lines (line ∷ next ∷ lines) = line ++ (10 ∷ join_lines (next ∷ lines))

-- What Section and Unreleased return.
pub data Section : Type 0 where
  section_body : Text → Section
  no_version : Section
  absent : Text → Section
  empty_section : Text → Section

unfoldable pub names_version : Text → Option Text → Bool
names_version v none = false
names_version v (some w) = text_eq w v

unfoldable pub is_version : Text → Text → Bool
is_version v line = names_version v (version_of line)

unfoldable pub not_empty : Text → Text → Section
not_empty v [] = empty_section v
not_empty v (c ∷ body) = section_body (c ∷ body)

unfoldable pub section_of : (Text → Text) → Text → Option (List Text) → Section
section_of trim v none = absent v
section_of trim v (some lines) = not_empty v (trim (join_lines lines))

unfoldable pub normal_version : (Text → Text) → Text → Text
normal_version trim version = elim (without_prefix (codes "v") (trim version)) [
  | none ↦ trim version
  | some v ↦ v
]

-- func Section
unfoldable pub section : (Text → Text) → Text → Text → Section
section trim doc version =
    let v = normal_version trim version in
    if text_eq v []
    then no_version
    else section_of trim v (section_lines (is_version v) (split_lines doc))

unfoldable pub unreleased_of : (Text → Text) → Option (List Text) → Section
unreleased_of trim none = absent unreleased_heading
unreleased_of trim (some lines) = section_body (trim (join_lines lines))

-- func Unreleased
unfoldable pub unreleased_section : (Text → Text) → Text → Section
unreleased_section trim doc =
    unreleased_of trim (section_lines (λ line. text_eq line unreleased_heading) (split_lines doc))
