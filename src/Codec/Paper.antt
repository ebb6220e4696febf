-- ===== src/Codec/Paper.antt =====
-- The presets of src/paper_config.cpp (include/byte_select/paper_config.hpp).
pub mod Valid
use Prim.Native.String.{String}
use text.Mathlib.Text.{◌==◌}
use byte_select.Prelude.{
  ℕ, ◌≡◌, ◌⊎◌, refl, arith, Bool-cases, inl, inr, if◌then◌else◌, List, [], ◌∷◌,
}
use byte_select.Prelude.{Result, ok, err, Error, invalid_argument}
use byte_select.Pattern.{Pattern}
use byte_select.Codec.{PatternSet}

pub record PaperTargetConfig : Type 0 where
  pub target_size : ℕ
  pub max_patterns : ℕ
  pub metadata_bytes : ℕ
  pub metadata_tag_bits : ℕ
  pub metadata_tag_value : ℕ

abbrev pub target_config : ℕ → ℕ → ℕ → ℕ → ℕ → PaperTargetConfig
target_config target_size max_patterns metadata_bytes metadata_tag_bits metadata_tag_value =
    record {
      target_size = target_size;
      max_patterns = max_patterns;
      metadata_bytes = metadata_bytes;
      metadata_tag_bits = metadata_tag_bits;
      metadata_tag_value = metadata_tag_value;
    }

abbrev pub unknown_paper_config : Error
unknown_paper_config =
    invalid_argument "paper config must be bsel-256, bsel-4096, or bsel-1024-1024-128"

abbrev pub bsel_256 : List PaperTargetConfig
bsel_256 = target_config 32 256 1 0 0 ∷ []

abbrev pub bsel_4096 : List PaperTargetConfig
bsel_4096 = target_config 32 4096 2 0 0 ∷ []

abbrev pub bsel_1024_1024_128 : List PaperTargetConfig
bsel_1024_1024_128 =
    target_config 32 1024 2 1 0 ∷ target_config 16 1024 2 1 0 ∷ target_config 8 128 1 1 1 ∷ []

unfoldable pub paper_config : String → Result (List PaperTargetConfig)
paper_config name =
    if name == "bsel-256"
    then ok bsel_256
    else if name == "bsel-4096"
    then ok bsel_4096
    else if name == "bsel-1024-1024-128"
    then ok bsel_1024_1024_128
    else err unknown_paper_config

-- A set for a target.
abbrev pub set_of : PaperTargetConfig → List Pattern → PatternSet
set_of t patterns = record {
  target_size = t.target_size;
  metadata_bytes = t.metadata_bytes;
  patterns = patterns;
  metadata_tag_bits = t.metadata_tag_bits;
  metadata_tag_value = t.metadata_tag_value;
}

-- There are three presets.
pub paper_config_cases :
    (name : String) (targets : List PaperTargetConfig)
    → paper_config name ≡ ok targets
    → (bsel_256 ≡ targets) ⊎ ((bsel_4096 ≡ targets) ⊎ (bsel_1024_1024_128 ≡ targets))
unfolding paper_config
paper_config_cases name targets h = elim (Bool-cases (name == "bsel-256")) [
  | inl a ↦ (let e : ok bsel_256 ≡ ok targets = rw a at h in inl cc)
  | inr a ↦ elim (Bool-cases (name == "bsel-4096")) [
    | inl b ↦ (let e : ok bsel_4096 ≡ ok targets = rw (a, b) at h in inr (inl cc))
    | inr b ↦ elim (Bool-cases (name == "bsel-1024-1024-128")) [
      | inl c ↦ (let e : ok bsel_1024_1024_128 ≡ ok targets = rw (a, b, c) at h in inr (inr cc))
      | inr c ↦ (let e : err unknown_paper_config ≡ ok targets = rw (a, b, c) at h in absurd cc)
    ]
  ]
]
