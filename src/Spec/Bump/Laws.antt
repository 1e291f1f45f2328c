-- ===== src/Spec/Bump/Laws.antt =====
-- What ValidateVersionBump accepts, and that SuggestVersion proposes the least such version.
use event_spec.Prelude.{
  ℕ, zero, suc, ◌+◌, ◌<◌, ◌≤◌, ◌≡◌, ◌↔◌, refl, sym, ap, subst, true, none, List, [], ◌∷◌, arith,
  ltb, if◌then◌else◌, Bool-cases, inl, inr, ◌∙◌,
}
use event_spec.Prelude.Int.{ℤ, pos, negsuc, pos_part, ◌+ℤ◌, ltb_ℤ, int_limit}
use event_spec.Spec.Schema.{EventDef}
use event_spec.Spec.Change.{Change}
use event_spec.Spec.Version.{SchemaVer, ok, parse_schema_ver, compare_schema_ver, signum}
use event_spec.Spec.Version.RoundTrip.{IsNatural, IsVersion, parse-version_text, parse-IsVersion}
use event_spec.Spec.Version.Order.{Less, compare-Less}
use event_spec.Spec.Bump.{
  change_bump_level, max_level_from, max_level, bumped, suggest, suggest_version, declared_level,
  check_level, check_bump, check_parsed, validate_version_bump,
}

change_bump_level-le : (c : Change) → change_bump_level c ≤ 2
unfolding change_bump_level
change_bump_level-le c = ground arith

pub max_level_from-le :
    (changes : List Change) (level : ℕ) → level ≤ 2 → max_level_from changes level ≤ 2
unfolding max_level_from
max_level_from-le [] level h = h
max_level_from-le (c ∷ changes) level h =
    max_level_from-le changes _ (ground (arith, change_bump_level-le c))

next_int : (a : ℤ) → IsNatural a → pos_part a + 1 < int_limit → a +ℤ pos 1 ≡ pos (pos_part a + 1)
unfolding ◌+ℤ◌
next_int (pos n) h room = ground arith
next_int (negsuc n) h room = elim h [ ]

natural_pos : (a : ℤ) → IsNatural a → a ≡ pos (pos_part a)
natural_pos (pos n) h = refl
natural_pos (negsuc n) h = elim h [ ]

-- There is room for one more in each number.
pub record HasRoom (v : SchemaVer) : Type 0 where
  pub major_room : pos_part v.major + 1 < int_limit
  pub minor_room : pos_part v.minor + 1 < int_limit
  pub patch_room : pos_part v.patch + 1 < int_limit

-- What a version proposed for a level is.
record Fits (v : SchemaVer) (level : ℕ) (w : SchemaVer) : Type 0 where
  parsed : parse_schema_ver w.raw ≡ ok w
  larger : Less v w
  enough : level ≤ declared_level v w
  least : (u : SchemaVer) → IsVersion u → Less v u → level ≤ declared_level v u → ¬ Less u w

ltb_ℤ-natural : (a b : ℤ) → IsNatural a → IsNatural b → ltb_ℤ a b ≡ ltb (pos_part a) (pos_part b)
unfolding ltb_ℤ
ltb_ℤ-natural (pos a) (pos b) ha hb = refl
ltb_ℤ-natural (pos a) (negsuc b) ha hb = elim hb [ ]
ltb_ℤ-natural (negsuc a) b ha hb = elim ha [ ]

-- The level of a jump, on the numbers.
abbrev pub level_between : ℕ → ℕ → ℕ → ℕ → ℕ
level_between a a' b b' = if ltb a a' then 2 else if ltb b b' then 1 else 0

pub declared_level-natural :
    (v w : SchemaVer)
    → IsVersion v
    → IsVersion w
    → declared_level v w
      ≡ level_between (pos_part v.major) (pos_part w.major) (pos_part v.minor) (pos_part w.minor)
unfolding declared_level
declared_level-natural v w hv hw = ground (
  arith,
  ltb_ℤ-natural v.major w.major hv.major_natural hw.major_natural,
  ltb_ℤ-natural v.minor w.minor hv.minor_natural hw.minor_natural,
)

-- The three numbers of a proposal decide all of it.
Fits-bumped :
    (v : SchemaVer) (level a b c : ℕ)
    → IsVersion v
    → a < int_limit
    → b < int_limit
    → c < int_limit
    → Less v (bumped (pos a) (pos b) (pos c))
    → level ≤ level_between (pos_part v.major) a (pos_part v.minor) b
    → ((u : SchemaVer)
        → Less v u
        → level
          ≤ level_between
              (pos_part v.major)
              (pos_part u.major)
              (pos_part v.minor)
              (pos_part u.minor)
        → ¬ Less u (bumped (pos a) (pos b) (pos c)))
    → Fits v level (bumped (pos a) (pos b) (pos c))
unfolding bumped
Fits-bumped v level a b c hv ha hb hc larger enough least =
    let w = bumped (pos a) (pos b) (pos c) in
    let hw : IsVersion w = record { major_natural = ha; minor_natural = hb; patch_natural = hc } in
    record {
      parsed = parse-version_text a b c ha hb hc;
      larger = larger;
      enough = subst (λ d. level ≤ d) (sym (declared_level-natural v w hv hw)) enough;
      least = λ u hu lt e. least u lt (subst (λ d. level ≤ d) (declared_level-natural v u hv hu) e);
    }

zero-below : 0 < int_limit
zero-below = omega arith

suggest-Fits :
    (v : SchemaVer) (level : ℕ)
    → IsVersion v
    → HasRoom v
    → level ≤ 2
    → Fits v level (suggest v level)
unfolding suggest bumped
suggest-Fits v zero hv room h =
    let e : bumped v.major v.minor (v.patch +ℤ pos 1)
        ≡ bumped (pos (pos_part v.major)) (pos (pos_part v.minor)) (pos (pos_part v.patch + 1)) =
      λ i.
        bumped (natural_pos v.major hv.major_natural i) (natural_pos v.minor hv.minor_natural i)
          (next_int v.patch hv.patch_natural room.patch_room i) in
    subst (Fits v 0) (sym e) (
      Fits-bumped v 0 _ _ _ hv (omega (arith, room.major_room)) (omega (arith, room.minor_room))
        room.patch_room (ground arith) (ground arith) (λ u. ground arith))
suggest-Fits v (suc zero) hv room h =
    let e : bumped v.major (v.minor +ℤ pos 1) (pos 0)
        ≡ bumped (pos (pos_part v.major)) (pos (pos_part v.minor + 1)) (pos 0) =
      λ i.
        bumped (natural_pos v.major hv.major_natural i)
          (next_int v.minor hv.minor_natural room.minor_room i) (pos 0) in
    subst (Fits v 1) (sym e) (
      Fits-bumped v 1 _ _ _ hv (omega (arith, room.major_room)) room.minor_room zero-below
        (ground arith) (ground arith) (λ u. ground arith))
suggest-Fits v (suc (suc zero)) hv room h =
    let e : bumped (v.major +ℤ pos 1) (pos 0) (pos 0)
        ≡ bumped (pos (pos_part v.major + 1)) (pos 0) (pos 0) =
      λ i. bumped (next_int v.major hv.major_natural room.major_room i) (pos 0) (pos 0) in
    subst (Fits v 2) (sym e) (
      Fits-bumped v 2 _ _ _ hv room.major_room zero-below zero-below (ground arith) (ground arith)
        (λ u. ground arith))
suggest-Fits v (suc (suc (suc n))) hv room h = absurd (omega arith)

suggest_version-suggest :
    (v : SchemaVer) (changes : List Change)
    → suggest_version v changes ≡ suggest v (max_level changes)
unfolding suggest_version suggest max_level_from
suggest_version-suggest v [] = refl
suggest_version-suggest v (c ∷ changes) = refl

suggest_version-Fits :
    (v : SchemaVer) (changes : List Change)
    → IsVersion v
    → HasRoom v
    → Fits v (max_level changes) (suggest_version v changes)
suggest_version-Fits v changes hv room =
    subst (Fits v (max_level changes)) (sym (suggest_version-suggest v changes))
      (suggest-Fits v (max_level changes) hv room (max_level_from-le changes 0 (omega arith)))

compare-positive :
    (w v : SchemaVer)
    → (ltb_ℤ (pos 0) (compare_schema_ver w v) ≡ true) ↔ (compare_schema_ver w v ≡ pos 1)
unfolding compare_schema_ver signum ltb_ℤ
compare-positive w v = (ground arith, ground arith)

check_level-none :
    (v w : SchemaVer) (changes : List Change)
    → (check_level v w changes ≡ none) ↔ (max_level changes ≤ declared_level v w)
unfolding check_level max_level_from
check_level-none v w [] = (λ _. ground arith, λ _. refl)
check_level-none v w (c ∷ changes) = (ground arith, ground arith)

check_bump-none :
    (v w : SchemaVer) (changes : List Change)
    → IsVersion v
    → IsVersion w
    → (check_bump v w changes ≡ none) ↔ (Less v w × (max_level changes ≤ declared_level v w))
unfolding check_bump
check_bump-none v w changes hv hw =
    let larger = (compare-Less w v hw hv).1 in
    let positive = compare-positive w v in
    let level = check_level-none v w changes in
    elim (Bool-cases (ltb_ℤ (pos 0) (compare_schema_ver w v))) [
      | inl yes_larger ↦
          rw yes_larger (λ e. (larger.0 (positive.0 yes_larger), level.0 e), λ p. level.1 p.1)
      | inr not_larger ↦ rw not_larger (λ e. cc, λ p. cc (not_larger, positive.1 (larger.1 p.0)))
    ]

module _ (from to : EventDef) (changes : List Change) where
  -- ValidateVersionBump accepts a jump exactly when both versions parse, the new one is larger, and
  -- the number that it raises is at least the one that the changes call for.
  pub validate_version_bump-none :
      {v w : SchemaVer}
      → parse_schema_ver from.version ≡ ok v
      → parse_schema_ver to.version ≡ ok w
      → (validate_version_bump from to changes ≡ none)
        ↔ (Less v w × (max_level changes ≤ declared_level v w))
  unfolding validate_version_bump check_parsed
  validate_version_bump-none {v} {w} pv pw =
      rw (pv, pw)
        (check_bump-none v w changes (parse-IsVersion from.version pv).0
          (parse-IsVersion to.version pw).0)

  -- The version that SuggestVersion proposes is accepted, if there is room above the old numbers.
  pub validate-suggest_version :
      {v : SchemaVer}
      → parse_schema_ver from.version ≡ ok v
      → HasRoom v
      → to.version ≡ (suggest_version v changes).raw
      → validate_version_bump from to changes ≡ none
  validate-suggest_version {v} pv room e =
      let hv = (parse-IsVersion from.version pv).0 in
      let fits = suggest_version-Fits v changes hv room in
      (validate_version_bump-none pv (ap parse_schema_ver e ∙ fits.parsed)).1
        (fits.larger, fits.enough)

  -- No accepted version is smaller than the one that SuggestVersion proposes.
  pub suggest_version-least :
      {v w : SchemaVer}
      → parse_schema_ver from.version ≡ ok v
      → HasRoom v
      → parse_schema_ver to.version ≡ ok w
      → validate_version_bump from to changes ≡ none
      → ¬ Less w (suggest_version v changes)
  suggest_version-least {v} {w} pv room pw accepted =
      let hv = (parse-IsVersion from.version pv).0 in
      let (larger, enough) = (validate_version_bump-none pv pw).0 accepted in
      (suggest_version-Fits v changes hv room).least w (parse-IsVersion to.version pw).0 larger
        enough
