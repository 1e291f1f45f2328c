-- ===== src/Registry/Latest/Order.antt =====
-- The test for a newer version is the strict order of the versions.
use event_spec.Prelude.{◌≡◌, true, ◌↔◌, arith}
use event_spec.Prelude.Int.{ltb_ℤ}
use event_spec.Spec.Version.{SchemaVer}
use event_spec.Spec.Version.RoundTrip.{IsVersion}
use event_spec.Spec.Version.Order.{Less, by_parts, compare_natural}
use event_spec.Registry.Latest.{is_newer}

pub is_newer-Less : (v w : SchemaVer) → IsVersion v → IsVersion w → (is_newer v w ≡ true) ↔ Less w v
unfolding is_newer by_parts ltb_ℤ
is_newer-Less v w hv hw = rw (compare_natural v w hv hw) (ground arith, ground arith)

pub Less-trans : (u v w : SchemaVer) → Less u v → Less v w → Less u w
Less-trans u v w a b = ground arith

pub Less-irrefl : (v : SchemaVer) → ¬ (Less v v)
Less-irrefl v h = ground arith
