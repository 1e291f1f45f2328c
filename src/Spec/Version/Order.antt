-- ===== src/Spec/Version/Order.antt =====
-- CompareSchemaVer is the lexicographic order of the three numbers.
use event_spec.Prelude.{ℕ, ◌<◌, ◌≡◌, refl, not, eqb, ◌↔◌, ◌⊎◌, arith, ltb, if◌then◌else◌}
use event_spec.Prelude.Int.{ℤ, pos, negsuc, pos_part, ◌-ℤ◌, eq_ℤ}
use event_spec.Spec.Version.{SchemaVer, signum, compare_schema_ver}
use event_spec.Spec.Version.RoundTrip.{IsNatural, IsVersion}

-- The order that the versions are meant to have, on their three numbers.
abbrev pub Less : SchemaVer → SchemaVer → Type 0
Less v w =
    (pos_part v.major < pos_part w.major)
    ⊎ ((pos_part v.major ≡ pos_part w.major) × (pos_part v.minor < pos_part w.minor))
    ⊎ ((pos_part v.major ≡ pos_part w.major)
        × (pos_part v.minor ≡ pos_part w.minor)
        × (pos_part v.patch < pos_part w.patch))

abbrev pub SameNumbers : SchemaVer → SchemaVer → Type 0
SameNumbers v w =
    (pos_part v.major ≡ pos_part w.major)
    × (pos_part v.minor ≡ pos_part w.minor)
    × (pos_part v.patch ≡ pos_part w.patch)

signum-sub :
    (a b : ℤ)
    → IsNatural a
    → IsNatural b
    → signum (a -ℤ b) ≡ (
        if ltb (pos_part a) (pos_part b)
        then negsuc 0
        else if ltb (pos_part b) (pos_part a)
        then pos 1
        else pos 0)
unfolding signum ◌-ℤ◌
signum-sub (pos a) (pos b) ha hb = ground arith
signum-sub (pos a) (negsuc b) ha hb = elim hb [ ]
signum-sub (negsuc a) b ha hb = elim ha [ ]

eq_ℤ-natural : (a b : ℤ) → IsNatural a → IsNatural b → eq_ℤ a b ≡ eqb (pos_part a) (pos_part b)
unfolding eq_ℤ
eq_ℤ-natural (pos a) (pos b) ha hb = refl
eq_ℤ-natural (pos a) (negsuc b) ha hb = elim hb [ ]
eq_ℤ-natural (negsuc a) b ha hb = elim ha [ ]

unfoldable pub signs : ℕ → ℕ → ℤ
signs a b = if ltb a b then negsuc 0 else if ltb b a then pos 1 else pos 0

-- One test after another, on the numbers.
unfoldable pub by_parts : ℕ → ℕ → ℤ → ℤ
unfolding signs
by_parts a b next = if not (eqb a b) then signs a b else next

pub compare_natural :
    (v w : SchemaVer)
    → IsVersion v
    → IsVersion w
    → compare_schema_ver v w
      ≡ by_parts (pos_part v.major) (pos_part w.major) (
          by_parts
            (pos_part v.minor)
            (pos_part w.minor)
            (signs (pos_part v.patch) (pos_part w.patch)))
unfolding compare_schema_ver by_parts
compare_natural v w hv hw =
    rw
      (
        eq_ℤ-natural v.major w.major hv.major_natural hw.major_natural,
        eq_ℤ-natural v.minor w.minor hv.minor_natural hw.minor_natural,
        signum-sub v.major w.major hv.major_natural hw.major_natural,
        signum-sub v.minor w.minor hv.minor_natural hw.minor_natural,
        signum-sub v.patch w.patch hv.patch_natural hw.patch_natural,
      )
      refl

-- On versions that were parsed, CompareSchemaVer gives -1 exactly for the smaller one, 1 exactly
-- for the larger one, and 0 exactly when the three numbers agree.
pub compare-Less :
    (v w : SchemaVer)
    → IsVersion v
    → IsVersion w
    → ((compare_schema_ver v w ≡ negsuc 0) ↔ Less v w)
      × ((compare_schema_ver v w ≡ pos 1) ↔ Less w v)
      × ((compare_schema_ver v w ≡ pos 0) ↔ SameNumbers v w)
unfolding by_parts
compare-Less v w hv hw =
    rw (compare_natural v w hv hw)
      ((ground arith, ground arith), (ground arith, ground arith), (ground arith, ground arith))
