-- ===== src/Security/Canonical/Examples.antt =====
-- The canonical form of a request at concrete targets, and the comparison at concrete texts.
use power_monitor_sensor.Common.{◌≡◌, ◌↔◌, refl, true, some}
use power_monitor_sensor.Common.Texts.{codes}
use power_monitor_sensor.Security.Canonical.{
  ascii_unreserved, percent_encode, percent_decode_query_component, before, behind, pieces,
  decode_items, split_canonical_target, text_le, text_is, pair_le, insert, sort, join_items,
  encode_pairs, canonical_path_query, canonical_target,
}
use power_monitor_sensor.Security.Canonical.Fixed.{canonical_target_fixed}
use power_monitor_sensor.Security.Compare.{constant_time_equal}
use power_monitor_sensor.Security.Compare.Exact.{constant_time_equal_exact}

is_canonical : canonical_target (codes "/x?b=%2f+1&a") ≡ some (codes "/x?a=&b=%2F%201")
unfolding ascii_unreserved percent_encode percent_decode_query_component before behind pieces
    decode_items split_canonical_target text_le text_is pair_le insert sort join_items encode_pairs
    canonical_path_query canonical_target
is_canonical = refl

canonical_target_fixed_example :
    canonical_target (codes "/x?a=&b=%2F%201") ≡ some (codes "/x?a=&b=%2F%201")
canonical_target_fixed_example =
    canonical_target_fixed (codes "/x?b=%2f+1&a") (codes "/x?a=&b=%2F%201") refl is_canonical

constant_time_equal_exact_example :
    (constant_time_equal (codes "abc") (codes "abd") ≡ true) ↔ (codes "abc" ≡ codes "abd")
constant_time_equal_exact_example = constant_time_equal_exact (codes "abc") (codes "abd") refl refl
