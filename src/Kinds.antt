-- ===== src/Kinds.antt =====
-- The names of the baseline coders: `parse_baseline_kind` and `baseline_kind_name`
-- (include/byte_select/baseline.hpp, src/baseline.cpp).
pub mod Names
mod Examples
use Prim.Native.String.{String}
use byte_select.Prelude.{if◌then◌else◌, Result, ok, err, Error, invalid_argument}
use text.Mathlib.Text.{◌==◌}

pub data BaselineKind : Type 0 where
  fpc : BaselineKind
  bdi : BaselineKind
  hybrid_bdi_fpc : BaselineKind
  cpack : BaselineKind
  bpc : BaselineKind
  zstd : BaselineKind
  lz4 : BaselineKind
  lz77_lite : BaselineKind
  huffman : BaselineKind

abbrev pub unknown_baseline : Error
unknown_baseline =
    invalid_argument
      "baseline must be fpc, bdi, hybrid, cpack, bpc, zstd, lz4, lz77-lite, or huffman"

unfoldable pub parse_baseline_kind : String → Result BaselineKind
parse_baseline_kind text =
    if text == "fpc"
    then ok fpc
    else if text == "bdi"
    then ok bdi
    else if text == "hybrid"
    then ok hybrid_bdi_fpc
    else if text == "cpack"
    then ok cpack
    else if text == "bpc"
    then ok bpc
    else if text == "zstd"
    then ok zstd
    else if text == "lz4"
    then ok lz4
    else if text == "lz77-lite"
    then ok lz77_lite
    else if text == "huffman"
    then ok huffman
    else err unknown_baseline

-- The `throw` behind the `switch` is for values outside the enumeration, which this type excludes.
unfoldable pub baseline_kind_name : BaselineKind → String
baseline_kind_name fpc = "fpc"
baseline_kind_name bdi = "bdi"
baseline_kind_name hybrid_bdi_fpc = "hybrid"
baseline_kind_name cpack = "cpack"
baseline_kind_name bpc = "bpc"
baseline_kind_name zstd = "zstd"
baseline_kind_name lz4 = "lz4"
baseline_kind_name lz77_lite = "lz77-lite"
baseline_kind_name huffman = "huffman"
