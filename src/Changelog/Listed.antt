-- ===== src/Changelog/Listed.antt =====
-- The versions that are listed have a section.
use event_spec.Prelude.{◌≡◌, Bool, true, false, List, ◌∷◌, Text, All, ◌++◌}

-- The first line with a property, between the lines before it and those behind.
abbrev pub IsFirst : (Text → Bool) → List Text → List Text → Text → List Text → Type 0
IsFirst p lines before line rest =
    (lines ≡ before ++ (line ∷ rest)) × (p line ≡ true) × All (λ l. p l ≡ false) before
