-- ===== src/Codec/Examples.antt =====
-- Runs of the codec, and the theorems at concrete inputs.
use byte_select.Prelude.{◌≡◌, ◌↔◌, refl, arith, true, false, [], ◌∷◌, map, length}
use byte_select.Prelude.{◌≤◌, err, invalid_argument, ok, some, none, get_or, inr}
use byte_select.Pattern.{Pattern, Block, describes, rank, size}
use byte_select.Codec.{Model, PatternSet, EncodedBlock, validate_model, make_dictionary}
use byte_select.Codec.{encode_pattern_metadata, decode_pattern_metadata, validate_metadata_layout}
use byte_select.Codec.{value_fits_bits, low_bits_mask}
use byte_select.Codec.Compress.{compress, decompress, set_at}
use byte_select.Codec.Least.{compress_least}
use byte_select.Codec.Dictionary.{make_dictionary_lem}
use byte_select.Codec.Metadata.{IsLayout, encode-decode_iff}
use byte_select.Codec.RoundTrip.{decompress-compress}
use byte_select.Prelude.{ℕ, List, Result, Option}
use byte_select.Codec.Evaluate.{
  Evaluation, UpperBoundEvaluation, evaluate, evaluate_byte_select_upper_bound, check_targets,
}
use byte_select.Codec.Evaluate.{online_compressor}
use byte_select.Codec.Evaluate.Refines.{Compares, total_bytes, evaluations_compare}
use byte_select.Prelude.{replicate}
use byte_select.Pattern.{rank_of}
use byte_select.Codec.Paper.{paper_config, target_config, set_of}
use byte_select.Codec.Paper.Valid.{IsModelOf, validate_model-paper_config}

abbrev pattern_0101 : Pattern
pattern_0101 = record { symbols = 0 ∷ 1 ∷ 0 ∷ 1 ∷ [] }

abbrev small_set : PatternSet
small_set = record {
  target_size = 3;
  metadata_bytes = 1;
  patterns = pattern_0101 ∷ [];
  metadata_tag_bits = 1;
  metadata_tag_value = 1;
}

abbrev small_model : Model
small_model = record { block_size = 4; sets = small_set ∷ [] }

abbrev block_abab : Block
block_abab = 7 ∷ 9 ∷ 7 ∷ 9 ∷ []

accepted : validate_model small_model ≡ ok tt
unfolding validate_model rank size
accepted = refl

layout : IsLayout small_set
unfolding value_fits_bits
layout = record {
  narrow = omega arith;
  tag_bits_le_bits = omega arith;
  tag_bits_le_64 = omega arith;
  id_bits_small = inr (omega arith);
  tag_fits = refl;
}

encode_run : encode_pattern_metadata small_set 0 ≡ ok 128
unfolding encode_pattern_metadata validate_metadata_layout value_fits_bits
encode_run = refl

decode_run : decode_pattern_metadata small_set 128 ≡ ok 0
unfolding decode_pattern_metadata validate_metadata_layout value_fits_bits low_bits_mask
decode_run = refl

make_dictionary_lem_example :
    (describes pattern_0101 block_abab ≡ true
      → (d : Block) × (make_dictionary block_abab pattern_0101 ≡ some d)
        × (length d ≡ rank pattern_0101)
        × (map (λ s. get_or d s 0) pattern_0101.symbols ≡ block_abab))
    × (describes pattern_0101 block_abab ≡ false → make_dictionary block_abab pattern_0101 ≡ none)
make_dictionary_lem_example = make_dictionary_lem block_abab pattern_0101

encode-decode_iff_example :
    (encode_pattern_metadata small_set 0 ≡ ok 128) ↔ (decode_pattern_metadata small_set 128 ≡ ok 0)
encode-decode_iff_example =
    encode-decode_iff small_set 0 128 layout (inr (omega arith)) (omega arith) (omega arith)
      (omega arith)

decompress-compress_example :
    (e : EncodedBlock) × (compress block_abab small_model ≡ ok e)
    × (decompress e small_model ≡ ok block_abab)
decompress-compress_example = decompress-compress block_abab small_model (omega arith) accepted refl

-- A layout of nine bytes with a tag of 16 bits is accepted, but the tag does not fit the 64-bit word:
-- the word that encode_pattern_metadata returns is refused by decode_pattern_metadata.
abbrev wide_set : PatternSet
wide_set = record {
  target_size = 12;
  metadata_bytes = 9;
  patterns = pattern_0101 ∷ [];
  metadata_tag_bits = 16;
  metadata_tag_value = 256;
}

wide_encode : encode_pattern_metadata wide_set 0 ≡ ok 0
unfolding encode_pattern_metadata validate_metadata_layout value_fits_bits
wide_encode = refl

wide_decode :
    decode_pattern_metadata wide_set 0
    ≡ err (invalid_argument "metadata tag does not match target pattern set")
unfolding decode_pattern_metadata validate_metadata_layout value_fits_bits low_bits_mask
wide_decode = refl

abbrev encoded_abab : EncodedBlock
encoded_abab = record {
  compressed = true;
  original_size = 4;
  encoded_size = 3;
  allocated_size = 3;
  set_index = 0;
  pattern_index = 0;
  metadata = 128;
  dictionary = 7 ∷ 9 ∷ [];
  raw = [];
}

compress_run : compress block_abab small_model ≡ ok encoded_abab
unfolding compress make_dictionary encode_pattern_metadata validate_metadata_layout value_fits_bits
    rank describes
compress_run = refl

described : describes pattern_0101 block_abab ≡ true
unfolding describes
described = refl

compress_least_example :
    (encoded_abab.compressed ≡ true)
    × (encoded_abab.allocated_size ≤ (set_at small_model 0).target_size)
compress_least_example =
    compress_least block_abab small_model encoded_abab 0 0 (omega arith) accepted refl compress_run
      (omega arith) (omega arith) described

targets_checked : check_targets 4 1 (2 ∷ 3 ∷ []) ≡ ok tt
unfolding check_targets
targets_checked = refl

-- A block that the pattern describes, and one that it does not.
evaluations_compare_example :
    (r : Evaluation) × (u : UpperBoundEvaluation) × (evaluate
        (block_abab ∷ (1 ∷ 2 ∷ 3 ∷ 4 ∷ []) ∷ [])
        small_model
      ≡ ok r)
    × (evaluate_byte_select_upper_bound (block_abab ∷ (1 ∷ 2 ∷ 3 ∷ 4 ∷ []) ∷ []) (3 ∷ 2 ∷ 3 ∷ []) 1
        ≡ ok u)
    × Compares (total_bytes (block_abab ∷ (1 ∷ 2 ∷ 3 ∷ 4 ∷ []) ∷ [])) r u
unfolding total_bytes byte_select.Prelude.Sorting.sort_numbers
    byte_select.Prelude.Sorting.insert_number byte_select.Prelude.Sorting.unique_numbers
    byte_select.Prelude.Sorting.unique_behind
evaluations_compare_example =
    evaluations_compare small_model (3 ∷ 2 ∷ 3 ∷ []) 1 (omega arith, (omega arith, tt)) accepted
      (omega arith) ((0, omega arith, refl, omega arith), tt) targets_checked block_abab
      ((1 ∷ 2 ∷ 3 ∷ 4 ∷ []) ∷ []) (omega arith) (refl, (refl, tt)) (omega arith)

small_compressor : online_compressor small_model ≡ ok (record { model = small_model })
unfolding online_compressor validate_model rank size
small_compressor = refl

abbrev preset_pattern : Pattern
preset_pattern = record { symbols = replicate 40 0 }

abbrev preset_model : Model
preset_model = record {
  block_size = 40;
  sets = set_of (target_config 32 256 1 0 0) (preset_pattern ∷ []) ∷ [];
}

preset_run : paper_config "bsel-256" ≡ ok (target_config 32 256 1 0 0 ∷ [])
unfolding paper_config
preset_run = refl

preset_model-IsModelOf : IsModelOf 40 (target_config 32 256 1 0 0 ∷ []) preset_model.sets
unfolding IsModelOf rank rank_of
preset_model-IsModelOf =
    ((refl, record { few = omega arith; suited = ((refl, omega arith), tt) }), tt)

validate_model-paper_config_example : validate_model preset_model ≡ ok tt
validate_model-paper_config_example =
    validate_model-paper_config preset_model (omega arith) "bsel-256"
      (target_config 32 256 1 0 0 ∷ []) preset_run preset_model-IsModelOf
