-- ===== src/Kinds/Examples.antt =====
-- The names of the baselines at concrete texts.
use byte_select.Prelude.{◌≡◌, ◌↔◌, refl, ok, err}
use byte_select.Kinds.{parse_baseline_kind, baseline_kind_name, unknown_baseline}
use byte_select.Kinds.BaselineKind.{cpack}
use byte_select.Kinds.Names.{parse_baseline_kind_iff}

refused : parse_baseline_kind "gzip" ≡ err unknown_baseline
unfolding parse_baseline_kind
refused = refl

parse_baseline_kind_iff_example :
    (parse_baseline_kind "cpack" ≡ ok cpack) ↔ (baseline_kind_name cpack ≡ "cpack")
parse_baseline_kind_iff_example = parse_baseline_kind_iff "cpack" cpack
