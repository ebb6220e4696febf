-- ===== src/FpcBsel/Codec.antt =====
-- The blocks of fpc-bsel/src/codec.cpp: `encode_block` and `decode_block`. A `size_t` has 64 bits, and
-- the sizes of vectors stay below.
pub mod Segments
pub mod RoundTrip
use byte_select.Prelude.{
  ℕ, zero, suc, ◌+◌, ◌-◌, ◌*◌, ◌^◌, ◌%◌, bit_or, bit_and, Bool, true, false, not, ◌||◌,
}
use byte_select.Prelude.{
  List, [], ◌∷◌, ◌++◌, length, get_or, take, drop, replicate, if◌then◌else◌, ◌==◌, ltb, leb,
}
use byte_select.Prelude.{
  Option, none, some, Result, ok, err, ◌>>=◌, ◌>>◌, throw_if, runtime_error, invalid_argument,
}
use byte_select.FpcBsel.{k_block_size, k_word_count}
use byte_select.FpcBsel.Fpc.{pack_tags, unpack_tags, fpc_encode, fpc_decode}
use byte_select.FpcBsel.Parts.{
  FpcParts, split_fpc, join_fpc, regular_payload_size, raw_residual_size, spread_raw,
}
use byte_select.FpcBsel.Bsel.{BselModel, rank, pattern_at, bsel_encode, bsel_decode}

pub record Model : Type 0 where
  pub prefix : BselModel
  pub residual : BselModel

-- `enum class BlockMode : std::uint8_t` and its values.
pub data BlockMode : Type 0 where
  raw : BlockMode
  fpc : BlockMode
  fpc_bsel : BlockMode

abbrev pub mode_byte : BlockMode → ℕ
mode_byte raw = 0
mode_byte fpc = 1
mode_byte fpc_bsel = 2

pub record EncodedBlock : Type 0 where
  pub mode : BlockMode
  pub bytes : List ℕ
  pub prefix_bsel : Bool
  pub residual_bsel : Bool

-- The bytes and the offset behind them.
unfoldable pub slice : List ℕ → ℕ → ℕ → Result (List ℕ × ℕ)
slice bytes offset size =
    throw_if (ltb (length bytes) (offset + size)) (runtime_error "truncated FPC-BSEL block")
    >> ok (take size (drop offset bytes), offset + size)

unfoldable pub bsel_stream_size : List ℕ → ℕ → BselModel → Result ℕ
bsel_stream_size bytes offset model = do
  throw_if (ltb (length bytes) (offset + 2)) (runtime_error "truncated BSEL segment")
  let id = bit_or (get_or bytes offset 0) (get_or bytes (offset + 1) 0 * 2 ^ 8 % 2 ^ 64)
  throw_if (leb (length model.patterns) id) (runtime_error "unknown BSEL pattern id")
  ok (2 + rank (pattern_at model id))

-- `if (encoded && encoded->size() < segment.size())`: whether the stream is taken, and the segment.
unfoldable pub choose : List ℕ → Option (List ℕ) → Bool × List ℕ
choose segment none = (false, segment)
choose segment (some encoded) =
    if ltb (length encoded) (length segment) then (true, encoded) else (false, segment)

abbrev pub flags_of : Bool → Bool → ℕ
flags_of prefix_bsel residual_bsel =
    bit_or (if prefix_bsel then 1 else 0) (if residual_bsel then 2 else 0)

unfoldable pub smaller_block : EncodedBlock → EncodedBlock → EncodedBlock
smaller_block next best = if ltb (length next.bytes) (length best.bytes) then next else best

unfoldable pub raw_encoded : List ℕ → EncodedBlock
raw_encoded block = record {
  mode = raw;
  bytes = mode_byte raw ∷ block;
  prefix_bsel = false;
  residual_bsel = false;
}

unfoldable pub fpc_encoded : List ℕ → EncodedBlock
fpc_encoded stream = record {
  mode = fpc;
  bytes = mode_byte fpc ∷ stream;
  prefix_bsel = false;
  residual_bsel = false;
}

unfoldable pub combined : FpcParts → Bool × List ℕ → Bool × List ℕ → EncodedBlock
combined parts (prefix_bsel, prefix) (residual_bsel, residual) = record {
  mode = fpc_bsel;
  bytes =
      mode_byte fpc_bsel
      ∷ flags_of prefix_bsel residual_bsel
      ∷ (prefix ++ (parts.regular_payload ++ residual));
  prefix_bsel = prefix_bsel;
  residual_bsel = residual_bsel;
}

unfoldable pub encode_block : List ℕ → Model → Result EncodedBlock
encode_block block model = do
  throw_if (not (length block == k_block_size))
      (invalid_argument "FPC-BSEL requires 64-byte blocks")
  stream ← fpc_encode block
  let best = smaller_block (fpc_encoded stream) (raw_encoded block)
  parts ← split_fpc block
  encoded_tags ← bsel_encode parts.tags model.prefix
  let prefix = choose (pack_tags parts.tags) encoded_tags
  encoded_residual ← bsel_encode parts.residual_block model.residual
  let residual = choose parts.raw_residual encoded_residual
  ok (smaller_block (combined parts prefix residual) best)

-- `for (const auto tag : tags) if (tag > 7) throw …`
unfoldable pub check_tags : List ℕ → Result (Unit {0})
check_tags [] = ok tt
check_tags (tag ∷ tags) =
    throw_if (ltb 7 tag) (runtime_error "invalid decoded FPC tag") >> check_tags tags

-- The tags and the offset behind them; `coded` is bit 0 of the flags. The array of tags has 16
-- entries, which are 0 at first (more than 16 decoded bytes, which would not fit there, are cut here).
unfoldable pub decode_tags : Bool → List ℕ → ℕ → Model → Result (List ℕ × ℕ)
decode_tags true encoded offset model = do
  size ← bsel_stream_size encoded offset model.prefix
  (stream, next) ← slice encoded offset size
  decoded ← bsel_decode stream model.prefix
  let tags = take k_word_count (decoded ++ replicate k_word_count 0)
  check_tags tags
  ok (tags, next)
decode_tags false encoded offset model = do
  (packed, next) ← slice encoded offset 6
  tags ← unpack_tags packed
  ok (tags, next)

-- The residual block and the offset behind it; `coded` is bit 1 of the flags.
unfoldable pub decode_residual : Bool → List ℕ → ℕ → Model → List ℕ → Result (List ℕ × ℕ)
decode_residual true encoded offset model tags = do
  size ← bsel_stream_size encoded offset model.residual
  (stream, next) ← slice encoded offset size
  residual_block ← bsel_decode stream model.residual
  ok (residual_block, next)
decode_residual false encoded offset model tags = do
  (words, next) ← slice encoded offset (raw_residual_size tags)
  ok (spread_raw words 0 0 (replicate k_block_size 0) tags, next)

-- The part of `decode_block` for `BlockMode::FpcBsel`.
unfoldable pub decode_parts : List ℕ → Model → Result (List ℕ)
decode_parts encoded model = do
  let flags = get_or encoded 1 0
  throw_if (not (bit_and flags (2 ^ 32 - 1 - 3) == 0)) (runtime_error "invalid FPC-BSEL flags")
  (tags, behind_tags) ← decode_tags (not (bit_and flags 1 == 0)) encoded 2 model
  regular_size ← regular_payload_size tags
  (regular_payload, behind_regular) ← slice encoded behind_tags regular_size
  (residual_block, offset) ←
      decode_residual (not (bit_and flags 2 == 0)) encoded behind_regular model tags
  throw_if (not (offset == length encoded)) (runtime_error "trailing data in encoded block")
  join_fpc (record {
    tags = tags;
    regular_payload = regular_payload;
    raw_residual = [];
    residual_block = residual_block;
  })

unfoldable pub decode_block : List ℕ → Model → Result (List ℕ)
decode_block [] model = err (runtime_error "empty encoded block")
decode_block (mode ∷ rest) model =
    if mode == mode_byte raw
    then throw_if (not (length (mode ∷ rest) == 1 + k_block_size))
        (runtime_error "invalid raw block size")
      >> ok rest
    else if mode == mode_byte fpc
    then fpc_decode rest
    else throw_if (not (mode == mode_byte fpc_bsel) || ltb (length (mode ∷ rest)) 2)
        (runtime_error "unknown FPC-BSEL block mode")
      >> decode_parts (mode ∷ rest) model
