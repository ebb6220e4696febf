-- ===== src/FpcBsel/Model.antt =====
-- The models of fpc-bsel (fpc-bsel/src/model.cpp): training, and the bytes of a model file. A stream that
-- is written is the list of its bytes, and one that is read is the list of the bytes ahead; opening and
-- closing the file is not modelled.
pub mod Training
pub mod Files
use byte_select.Prelude.{
  ℕ, zero, suc, ◌+◌, ◌*◌, ◌%◌, ◌^◌, bit_or, Bool, true, false, not, ◌&&◌, ◌||◌,
}
use byte_select.Prelude.{List, [], ◌∷◌, ◌++◌, length, take, drop, if◌then◌else◌, ◌==◌, ltb, leb}
use byte_select.Prelude.{Result, ok, err, ◌>>=◌, ◌>>◌, throw_if, runtime_error, invalid_argument}
use byte_select.FpcBsel.{k_block_size, k_word_count}
use byte_select.FpcBsel.Fpc.{store32}
use byte_select.FpcBsel.Parts.{FpcParts, split_fpc}
use byte_select.FpcBsel.Bsel.{Pattern, BselModel, rank}
use byte_select.FpcBsel.Bsel.Train.{train_bsel}
use byte_select.FpcBsel.Codec.{Model}

-- The loop of `train_model`: the tags and the residual blocks.
unfoldable pub split_all :
    List (List ℕ) → List (List ℕ) → List (List ℕ) → Result (List (List ℕ) × List (List ℕ))
split_all prefixes residuals [] = ok (prefixes, residuals)
split_all prefixes residuals (block ∷ blocks) = split_fpc block >>= λ parts.
    split_all (prefixes ++ (parts.tags ∷ [])) (residuals ++ (parts.residual_block ∷ [])) blocks

unfoldable pub train_model : List (List ℕ) → ℕ → Result Model
train_model blocks max_patterns = do
  throw_if (length blocks == 0) (invalid_argument "training input has no complete blocks")
  (prefixes, residuals) ← split_all [] [] blocks
  prefix ← train_bsel prefixes max_patterns
  residual ← train_bsel residuals max_patterns
  ok (record { prefix = prefix; residual = residual })

-- The bytes that `write_u32` puts.
abbrev pub write_u32 : ℕ → List ℕ
write_u32 value = store32 value

-- The loop of `read_u32`, from byte `i` on.
unfoldable pub read_bytes : List ℕ → ℕ → ℕ → ℕ → Result (ℕ × List ℕ)
read_bytes ahead value i zero = ok (value, ahead)
read_bytes [] value i (suc left) = err (runtime_error "truncated model")
read_bytes (c ∷ ahead) value i (suc left) =
    read_bytes ahead (bit_or value (c * 2 ^ (8 * i) % 2 ^ 32)) (i + 1) left

unfoldable pub read_u32 : List ℕ → Result (ℕ × List ℕ)
read_u32 ahead = read_bytes ahead 0 0 4

-- The loop of `write_set`.
unfoldable pub write_patterns : ℕ → List Pattern → Result (List ℕ)
write_patterns block_size [] = ok []
write_patterns block_size (p ∷ patterns) = do
  throw_if (not (length p.symbols == block_size)) (invalid_argument "invalid model pattern")
  rest ← write_patterns block_size patterns
  ok (p.symbols ++ rest)

unfoldable pub write_set : BselModel → Result (List ℕ)
write_set set = write_patterns set.block_size set.patterns >>= λ patterns.
    ok (
      write_u32 (set.block_size % 2 ^ 32) ++ (write_u32 (length set.patterns % 2 ^ 32) ++ patterns))

-- The loop over the symbols of a pattern in `read_set`.
unfoldable pub check_symbols : ℕ → List ℕ → Result (Unit {0})
check_symbols bound [] = ok tt
check_symbols bound (symbol ∷ symbols) =
    throw_if (leb bound symbol) (runtime_error "invalid pattern symbol")
    >> check_symbols bound symbols

-- The loop over the patterns, `left` of them.
unfoldable pub read_patterns : ℕ → List ℕ → ℕ → Result (List Pattern × List ℕ)
read_patterns block_size ahead zero = ok ([], ahead)
read_patterns block_size ahead (suc left) =
    let p : Pattern = record { symbols = take block_size ahead } in
    throw_if (ltb (length ahead) block_size) (runtime_error "truncated model pattern")
    >> (check_symbols (rank p) p.symbols
        >> (read_patterns block_size (drop block_size ahead) left >>= λ (patterns, rest).
            ok (p ∷ patterns, rest)))

unfoldable pub read_set : List ℕ → Result (BselModel × List ℕ)
read_set ahead = do
  (block_size, behind_size) ← read_u32 ahead
  (count, behind_count) ← read_u32 behind_size
  throw_if (block_size == 0 || (ltb 64 block_size || ltb 65535 count))
      (runtime_error "invalid model dimensions")
  (patterns, rest) ← read_patterns block_size behind_count count
  ok (record { block_size = block_size; patterns = patterns }, rest)

-- The characters of "FPCBSEL1".
abbrev pub magic : List ℕ
magic = 70 ∷ 80 ∷ 67 ∷ 66 ∷ 83 ∷ 69 ∷ 76 ∷ 49 ∷ []

unfoldable pub same_bytes : List ℕ → List ℕ → Bool
same_bytes [] [] = true
same_bytes [] (y ∷ ys) = false
same_bytes (x ∷ xs) [] = false
same_bytes (x ∷ xs) (y ∷ ys) = x == y && same_bytes xs ys

-- The bytes of the file that `save_model` makes.
unfoldable pub save_model : Model → Result (List ℕ)
save_model model = do
  prefix ← write_set model.prefix
  residual ← write_set model.residual
  ok (magic ++ (write_u32 1 ++ (prefix ++ residual)))

-- `load_model` on the bytes of a file.
unfoldable pub load_model : List ℕ → Result Model
load_model file = do
  throw_if (not (same_bytes (take 8 file) magic)) (runtime_error "unsupported FPC-BSEL model")
  (version, ahead) ← read_u32 (drop 8 file)
  throw_if (not (version == 1)) (runtime_error "unsupported FPC-BSEL model")
  (prefix, behind) ← read_set ahead
  (residual, rest) ← read_set behind
  throw_if (not (prefix.block_size == k_word_count) || not (residual.block_size == k_block_size))
      (runtime_error "model has incorrect block dimensions")
  throw_if (not (length rest == 0)) (runtime_error "trailing data in model")
  ok (record { prefix = prefix; residual = residual })
