-- ===== src/Codec/Evaluate.antt =====
-- The evaluation of a model on blocks, and of the best that any model could do (src/codec.cpp), and the
-- on-line compressor and decompressor. The counters have 64 bits; the ratios, which are floating-point
-- quotients of the counters, are not modelled.
pub mod Bound
pub mod Refines
use byte_select.Prelude.{ℕ, zero, suc, ◌+◌, ◌-◌, ◌%◌, ◌^◌, min, Bool, true, false, not, ◌||◌}
use byte_select.Prelude.{List, [], ◌∷◌, map, length, get_or, set, replicate, Option, none, some}
use byte_select.Prelude.{
  if◌then◌else◌, ◌==◌, ltb, leb, Result, ok, ◌>>=◌, ◌>>◌, throw_if, invalid_argument,
}
use byte_select.Prelude.Sorting.{sorted_unique}
use byte_select.Pattern.{Block, simplest, rank}
use byte_select.Codec.{Model, EncodedBlock, validate_model, sub_size}
use byte_select.Codec.Compress.{compress, decompress}

-- `a += b` on 64 bits.
abbrev pub add_u64 : ℕ → ℕ → ℕ
add_u64 a b = (a + b) % 2 ^ 64

-- `++cells[i]`.
abbrev pub increment_at : List ℕ → ℕ → List ℕ
increment_at cells i = set cells i (add_u64 (get_or cells i 0) 1)

pub record Evaluation : Type 0 where
  pub blocks : ℕ
  pub original_bytes : ℕ
  pub encoded_bytes : ℕ
  pub allocated_bytes : ℕ
  pub compressed_blocks : ℕ
  pub set_blocks : List ℕ

-- What a block adds to the counters.
unfoldable pub count_encoded : Evaluation → Block → EncodedBlock → Evaluation
count_encoded r block e = record {
  blocks = add_u64 r.blocks 1;
  original_bytes = add_u64 r.original_bytes (length block);
  encoded_bytes = add_u64 r.encoded_bytes e.encoded_size;
  allocated_bytes = add_u64 r.allocated_bytes e.allocated_size;
  compressed_blocks = add_u64 r.compressed_blocks (if e.compressed then 1 else 0);
  set_blocks = if e.compressed then increment_at r.set_blocks e.set_index else r.set_blocks;
}

unfoldable pub evaluate_loop : Evaluation → List Block → Model → Result Evaluation
evaluate_loop r [] model = ok r
evaluate_loop r (block ∷ blocks) model =
    compress block model >>= λ e. evaluate_loop (count_encoded r block e) blocks model

unfoldable pub evaluate : List Block → Model → Result Evaluation
evaluate blocks model =
    evaluate_loop
      (record {
        blocks = 0;
        original_bytes = 0;
        encoded_bytes = 0;
        allocated_bytes = 0;
        compressed_blocks = 0;
        set_blocks = replicate (length model.sets) 0;
      })
      blocks model

pub record UpperBoundEvaluation : Type 0 where
  pub blocks : ℕ
  pub original_bytes : ℕ
  pub unique_bytes : ℕ
  pub unique_with_metadata_bytes : ℕ
  pub quantized_bytes : ℕ
  pub compressed_blocks : ℕ
  pub metadata_bytes : ℕ
  pub target_sizes : List ℕ
  pub target_blocks : List ℕ

-- The result with no block counted.
abbrev pub empty_bound : ℕ → List ℕ → UpperBoundEvaluation
empty_bound metadata_bytes targets = record {
  blocks = 0;
  original_bytes = 0;
  unique_bytes = 0;
  unique_with_metadata_bytes = 0;
  quantized_bytes = 0;
  compressed_blocks = 0;
  metadata_bytes = metadata_bytes;
  target_sizes = targets;
  target_blocks = replicate (length targets) 0;
}

-- The loop that checks the targets.
unfoldable pub check_targets : ℕ → ℕ → List ℕ → Result (Unit {0})
check_targets block_size metadata_bytes [] = ok tt
check_targets block_size metadata_bytes (t ∷ targets) =
    throw_if (t == 0 || (leb block_size t || leb t metadata_bytes))
      (invalid_argument "invalid upper-bound target size")
    >> check_targets block_size metadata_bytes targets

-- The loop over the targets from index `i` on, up to its `break`: the target and its index.
unfoldable pub first_target : ℕ → ℕ → ℕ → List ℕ → Option (ℕ × ℕ)
first_target unique metadata_bytes i [] = none
first_target unique metadata_bytes i (t ∷ targets) =
    if leb unique (sub_size t metadata_bytes)
    then some (t, i)
    else first_target unique metadata_bytes (i + 1) targets

unfoldable pub bound_allocated : ℕ → Option (ℕ × ℕ) → ℕ
bound_allocated block_size none = block_size
bound_allocated block_size (some (t, i)) = t

unfoldable pub unique_with_metadata : ℕ → ℕ → ℕ → ℕ
unique_with_metadata block_size metadata_bytes unique =
    if ltb (block_size - min metadata_bytes block_size) unique
    then block_size
    else min block_size ((unique + metadata_bytes) % 2 ^ 64)

-- What a block adds to the counters.
unfoldable pub count_bound : UpperBoundEvaluation → ℕ → ℕ → Option (ℕ × ℕ) → UpperBoundEvaluation
count_bound r block_size unique found = record {
  blocks = add_u64 r.blocks 1;
  original_bytes = add_u64 r.original_bytes block_size;
  unique_bytes = add_u64 r.unique_bytes unique;
  unique_with_metadata_bytes =
      add_u64 r.unique_with_metadata_bytes
        (unique_with_metadata block_size r.metadata_bytes unique);
  quantized_bytes = add_u64 r.quantized_bytes (bound_allocated block_size found);
  compressed_blocks = elim found [
    | none ↦ r.compressed_blocks
    | some (t, i) ↦ add_u64 r.compressed_blocks 1
  ];
  metadata_bytes = r.metadata_bytes;
  target_sizes = r.target_sizes;
  target_blocks = elim found [
    | none ↦ r.target_blocks
    | some (t, i) ↦ increment_at r.target_blocks i
  ];
}

unfoldable pub bound_loop : UpperBoundEvaluation → ℕ → List Block → Result UpperBoundEvaluation
bound_loop r block_size [] = ok r
bound_loop r block_size (block ∷ blocks) =
    let unique = rank (simplest block) in
    throw_if (not (length block == block_size))
      (invalid_argument "upper-bound blocks have inconsistent sizes")
    >> bound_loop
        (count_bound r block_size unique (first_target unique r.metadata_bytes 0 r.target_sizes))
        block_size blocks

unfoldable pub evaluate_byte_select_upper_bound :
    List Block → List ℕ → ℕ → Result UpperBoundEvaluation
evaluate_byte_select_upper_bound [] target_sizes metadata_bytes =
    ok (empty_bound metadata_bytes (sorted_unique target_sizes))
evaluate_byte_select_upper_bound (block ∷ blocks) target_sizes metadata_bytes = do
  let block_size = length block
  throw_if (block_size == 0) (invalid_argument "upper-bound blocks must be non-empty")
  let targets = sorted_unique target_sizes
  check_targets block_size metadata_bytes targets
  bound_loop (empty_bound metadata_bytes targets) block_size (block ∷ blocks)

-- `OnlineCompressor` and `OnlineDecompressor` hold the model that their constructors have checked.
pub record OnlineCompressor : Type 0 where
  pub model : Model

pub record OnlineDecompressor : Type 0 where
  pub model : Model

unfoldable pub online_compressor : Model → Result OnlineCompressor
online_compressor model = validate_model model >> ok (record { model = model })

unfoldable pub compress_block : OnlineCompressor → Block → Result EncodedBlock
compress_block c block = compress block c.model

unfoldable pub online_decompressor : Model → Result OnlineDecompressor
online_decompressor model = validate_model model >> ok (record { model = model })

unfoldable pub decompress_block : OnlineDecompressor → EncodedBlock → Result Block
decompress_block d encoded = decompress encoded d.model
