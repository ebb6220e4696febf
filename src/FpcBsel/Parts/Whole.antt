-- ===== src/FpcBsel/Parts/Whole.antt =====
-- What `split_fpc` makes of a block of 64 bytes (fpc-bsel/src/fpc.cpp).
use byte_select.Prelude.{ℕ, ◌<◌, ◌≡◌, refl, ◌∙◌, ap, arith}
use byte_select.Prelude.{List, [], length, replicate, take, All, ok, true, ◌==◌}
use byte_select.Prelude.{take_all}
use native.Mathlib.Nat.{zero-add}
use byte_select.Stream
use byte_select.Word.Load.{IsByte}
use byte_select.FpcBsel.Coded.{Coded-run}
use byte_select.FpcBsel.Parts.{FpcParts, split_fpc, join_words, join_fpc, regular_payload_size}
use byte_select.FpcBsel.Parts.{raw_residual_size, spread_raw}
use byte_select.FpcBsel.Parts.Split.{split_words-Splits}

-- The parts of a block: their sizes follow from the tags, the residual block from the raw words and
-- the tags, and the block from the tags, the regular payload and the residual block.
pub record IsParts (block : List ℕ) (parts : FpcParts) : Type 0 where
  pub count : length parts.tags ≡ 16
  pub small : All (λ t. t < 8) parts.tags
  pub regular : regular_payload_size parts.tags ≡ ok (length parts.regular_payload)
  pub raw : raw_residual_size parts.tags ≡ length parts.raw_residual
  pub residual : length parts.residual_block ≡ 64
  pub spreads : spread_raw parts.raw_residual 0 0 (replicate 64 0) parts.tags ≡ parts.residual_block
  pub joins :
      (raw : List ℕ)
      → join_fpc (record {
        tags = parts.tags;
        regular_payload = parts.regular_payload;
        raw_residual = raw;
        residual_block = parts.residual_block;
      })
        ≡ ok block

pub split_fpc-IsParts :
    (block : List ℕ)
    → All IsByte block
    → length block ≡ 64
    → (parts : FpcParts) × (split_fpc block ≡ ok parts) × IsParts block parts
unfolding split_fpc join_fpc regular_payload_size raw_residual_size
split_fpc-IsParts block hb sized =
    let s =
      split_words-Splits block hb Stream.new_writer [] [] (replicate 64 0) 0 16 (omega arith)
        (omega arith) in
    let code = s.joins [] in
    let (size, run) =
      Coded-run s.end s.bits (λ r. join_words r s.final 0 [] s.tags) (take 64 block) code in
    let fine : (length block == 64) ≡ true = ground arith in
    let whole : (length s.final == 64) ≡ true = ground (arith, s.size) in
    (
      record {
        tags = s.tags;
        regular_payload = s.end.bytes;
        raw_residual = s.raws;
        residual_block = s.final;
      },
      rw (fine, s.splits) refl,
      record {
        count = s.count;
        small = s.small;
        regular = rw (s.regular 0) (ap (λ (n : ℕ). ok n) (omega arith));
        raw = s.rest 0 ∙ zero-add (length s.raws);
        residual = s.size;
        spreads = s.spreads [];
        joins = λ raw. rw (whole, run) (ap (λ t. ok t) (take_all 64 block (omega arith)));
      },
    )
