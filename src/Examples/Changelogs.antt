-- ===== src/Examples/Changelogs.antt =====
-- A change log with one version.
use event_spec.Prelude.{◌∷◌, ◌++◌, Text, codes}

abbrev doc : Text
doc = codes "# Log" ++ (10 ∷ codes "## [1.0.2] - 2024-01-31") ++ (13 ∷ 10 ∷ codes "- First")

abbrev trim : Text → Text
trim s = s
