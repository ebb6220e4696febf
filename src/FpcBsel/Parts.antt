-- ===== src/FpcBsel/Parts.antt =====
-- The parts of a block in fpc-bsel/src/fpc.cpp: `split_fpc`, `join_fpc` and the sizes of the parts. The
-- array of tags is the list of its 16 entries; it is filled from word 0 on.
pub mod Copy
pub mod Split
pub mod Tags
pub mod Whole
use byte_select.Prelude.{
  ℕ, zero, suc, ◌+◌, ◌*◌, ◌/◌, Bool, true, false, not, List, [], ◌∷◌, ◌++◌, length, get_or, set,
  replicate,
}
use byte_select.Prelude.{
  if◌then◌else◌, ◌==◌, Result, ok, ◌>>=◌, ◌>>◌, throw_if, runtime_error, invalid_argument,
}
use byte_select.FpcBsel.{k_block_size, k_word_count}
use byte_select.FpcBsel.Bits.{BitWriter, BitReader, new_writer}
use byte_select.FpcBsel.Fpc.{load32, store32, classify, payload_bits, write_payload, read_payload}

pub record FpcParts : Type 0 where
  pub tags : List ℕ
  pub regular_payload : List ℕ
  pub raw_residual : List ℕ
  pub residual_block : List ℕ

-- `n` bytes of `source` from `from` on, to the places of `target` from `to` on.
unfoldable pub copy_n : List ℕ → ℕ → List ℕ → ℕ → ℕ → List ℕ
copy_n source from target to zero = target
copy_n source from target to (suc n) =
    copy_n source (from + 1) (set target to (get_or source from 0)) (to + 1) n

-- The state of the loop of `split_fpc`.
pub record Splitting : Type 0 where
  pub regular : BitWriter
  pub found : List ℕ
  pub raw : List ℕ
  pub residual : List ℕ

-- The loop of `split_fpc`, from `word` on, `left` words.
unfoldable pub split_words : Splitting → List ℕ → ℕ → ℕ → Result Splitting
split_words s block word zero = ok s
split_words s block word (suc left) =
    let offset = word * 4 in
    let value = load32 block offset in
    let tag = classify value in
    let tags = s.found ++ (tag ∷ []) in
    (if tag == 7
      then ok (record {
        regular = s.regular;
        found = tags;
        raw = s.raw ++ store32 value;
        residual = copy_n block offset s.residual offset 4;
      })
      else (write_payload s.regular tag value >>= λ w.
          ok (record { regular = w; found = tags; raw = s.raw; residual = s.residual })))
    >>= λ t. split_words t block (word + 1) left

unfoldable pub split_fpc : List ℕ → Result FpcParts
split_fpc block = do
  throw_if (not (length block == k_block_size))
      (invalid_argument "FPC-BSEL requires 64-byte blocks")
  s ←
      split_words
        (record { regular = new_writer; found = []; raw = []; residual = replicate k_block_size 0 })
        block 0 k_word_count
  ok (record {
    tags = s.found;
    regular_payload = s.regular.output;
    raw_residual = s.raw;
    residual_block = s.residual;
  })

-- The loop of `join_fpc`, over the tags from `word` on.
unfoldable pub join_words : BitReader → List ℕ → ℕ → List ℕ → List ℕ → Result (List ℕ × BitReader)
join_words r residual word output [] = ok (output, r)
join_words r residual word output (tag ∷ tags) =
    (if tag == 7 then ok (load32 residual (word * 4), r) else read_payload tag r) >>= λ (value, s).
    join_words s residual (word + 1) (output ++ store32 value) tags

unfoldable pub join_fpc : FpcParts → Result (List ℕ)
join_fpc parts = do
  throw_if (not (length parts.residual_block == k_block_size))
      (runtime_error "invalid residual block")
  (output, r) ←
      join_words (record { input = parts.regular_payload; byte = 0; bit = 0 }) parts.residual_block
        0 [] parts.tags
  ok output

-- The loop of `regular_payload_size`: the bits, on top of those counted before.
unfoldable pub regular_bits : List ℕ → ℕ → Result ℕ
regular_bits [] bits = ok bits
regular_bits (tag ∷ tags) bits =
    (if tag == 7 then ok bits else (payload_bits tag >>= λ n. ok (bits + n))) >>= λ sum.
    regular_bits tags sum

unfoldable pub regular_payload_size : List ℕ → Result ℕ
regular_payload_size tags = regular_bits tags 0 >>= λ bits. ok ((bits + 7) / 8)

-- The loop of `raw_residual_size`.
unfoldable pub raw_count : List ℕ → ℕ → ℕ
raw_count [] count = count
raw_count (tag ∷ tags) count = raw_count tags (count + (if tag == 7 then 4 else 0))

unfoldable pub raw_residual_size : List ℕ → ℕ
raw_residual_size tags = raw_count tags 0

-- The loop of `decode_block` (fpc-bsel/src/codec.cpp) that puts the raw words back in their places.
unfoldable pub spread_raw : List ℕ → ℕ → ℕ → List ℕ → List ℕ → List ℕ
spread_raw raw raw_offset word residual [] = residual
spread_raw raw raw_offset word residual (tag ∷ tags) =
    spread_raw raw (if tag == 7 then raw_offset + 4 else raw_offset) (word + 1)
      (if tag == 7 then copy_n raw raw_offset residual (word * 4) 4 else residual) tags
