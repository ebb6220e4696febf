-- ===== src/Bdi.antt =====
-- Base-delta-immediate compression, `bdi_encode` and `bdi_decode` (src/baseline.cpp). A value of a
-- block has 64 bits at most; a stream starts with a byte that tells its form.
pub mod Range
pub mod Deltas
pub mod Modes
pub mod RoundTrip
mod Examples
use byte_select.Prelude.{ℕ, zero, suc, ◌+◌, ◌-◌, ◌*◌, ◌/◌, ◌%◌, ◌^◌, min, max, Bool, true, false}
use byte_select.Prelude.{
  not, ◌&&◌, ◌||◌, List, [], ◌∷◌, ◌++◌, length, take, drop, replicate, get_or,
}
use byte_select.Prelude.{if◌then◌else◌, ◌==◌, ltb, leb, Result, ok, err, ◌>>=◌, ◌>>◌, throw_if}
use byte_select.Prelude.{invalid_argument, runtime_error}
use byte_select.Word.{load_little_endian, store_little_endian}

-- The loop of `values_for_width`, from `offset` on, `left` values.
unfoldable pub values_loop : List ℕ → ℕ → ℕ → ℕ → List ℕ
values_loop block width offset zero = []
values_loop block width offset (suc left) =
    load_little_endian block offset width ∷ values_loop block width (offset + width) left

unfoldable pub values_for_width : List ℕ → ℕ → Result (List ℕ)
values_for_width block width = do
  throw_if (width == 0 || not (length block % width == 0))
      (invalid_argument "block size is not divisible by baseline value width")
  ok (values_loop block width 0 (length block / width))

-- `std::all_of` with a comparison to one value.
unfoldable pub all_are : ℕ → List ℕ → Bool
all_are value [] = true
all_are value (v ∷ values) = v == value && all_are value values

unfoldable pub all_equal : List ℕ → Bool
all_equal [] = true
all_equal (v ∷ values) = all_are v values

-- `*std::min_element` and `*std::max_element`, of a list that is not empty.
unfoldable pub minimum : List ℕ → ℕ
minimum [] = 0
minimum (v ∷ []) = v
minimum (v ∷ w ∷ values) = min v (minimum (w ∷ values))

unfoldable pub maximum : List ℕ → ℕ
maximum [] = 0
maximum (v ∷ values) = max v (maximum values)

unfoldable pub delta_range_fits : List ℕ → ℕ → Bool
delta_range_fits values delta_bytes =
    leb (maximum values - minimum values) (2 ^ (delta_bytes * 8) - 1)

-- A row of the table `modes`: value_bytes, delta_bytes, base_bytes.
pub record Mode : Type 0 where
  pub value_bytes : ℕ
  pub delta_bytes : ℕ
  pub base_bytes : ℕ

abbrev pub mode_of : ℕ → ℕ → ℕ → Mode
mode_of value_bytes delta_bytes base_bytes = record {
  value_bytes = value_bytes;
  delta_bytes = delta_bytes;
  base_bytes = base_bytes;
}

abbrev pub modes : List Mode
modes =
    mode_of 8 1 8
    ∷ mode_of 8 2 8
    ∷ mode_of 8 4 8
    ∷ mode_of 4 1 4
    ∷ mode_of 4 2 4
    ∷ mode_of 2 1 2
    ∷ []

-- `modes[mode_index]`, read below `modes.size()` only.
abbrev pub mode_at : ℕ → Mode
mode_at mode_index = get_or modes mode_index (mode_of 0 0 0)

-- The loop over the values that appends the bytes of their deltas.
unfoldable pub put_deltas : ℕ → ℕ → List ℕ → List ℕ
put_deltas base delta_bytes [] = []
put_deltas base delta_bytes (value ∷ values) =
    store_little_endian ((value + 2 ^ 64 - base) % 2 ^ 64) delta_bytes
    ++ put_deltas base delta_bytes values

unfoldable pub mode_candidate : ℕ → Mode → List ℕ → List ℕ
mode_candidate mode_index mode values =
    let base = minimum values in
    ((3 + mode_index) % 2 ^ 8)
    ∷ (store_little_endian base mode.base_bytes ++ put_deltas base mode.delta_bytes values)

-- `if (candidate.size() < best.size()) best = std::move(candidate);`
unfoldable pub smaller : List ℕ → List ℕ → List ℕ
smaller candidate best = if ltb (length candidate) (length best) then candidate else best

-- The loop over the modes, from `mode_index` on, `left` of them.
unfoldable pub try_modes : List ℕ → List ℕ → ℕ → ℕ → Result (List ℕ)
try_modes block best mode_index zero = ok best
try_modes block best mode_index (suc left) =
    values_for_width block (mode_at mode_index).value_bytes >>= λ values.
    try_modes block
      (if delta_range_fits values (mode_at mode_index).delta_bytes
        then smaller (mode_candidate mode_index (mode_at mode_index) values) best
        else best)
      (mode_index + 1) left

unfoldable pub bdi_encode : List ℕ → Result (List ℕ)
bdi_encode block = do
  throw_if (length block == 0 || not (length block % 8 == 0))
      (invalid_argument "BDI requires a non-empty block divisible by eight bytes")
  values8 ← values_for_width block 8
  let zeros = if all_are 0 values8 then 1 ∷ [] else 0 ∷ block
  let repeated = if all_equal values8 then smaller (2 ∷ take 8 block) zeros else zeros
  try_modes block repeated 0 (length modes)

-- `while (out.size() < output_size)`, eight bytes a round.
unfoldable pub repeat_bytes : List ℕ → ℕ → List ℕ
repeat_bytes bytes zero = []
repeat_bytes bytes (suc left) = bytes ++ repeat_bytes bytes left

-- What the loop over the words appends, from the position `at` on.
unfoldable pub add_deltas : List ℕ → ℕ → Mode → ℕ → ℕ → List ℕ
add_deltas encoded base mode at zero = []
add_deltas encoded base mode at (suc left) =
    store_little_endian ((base + load_little_endian encoded at mode.delta_bytes) % 2 ^ 64)
      mode.value_bytes
    ++ add_deltas encoded base mode (at + mode.delta_bytes) left

-- The form of a mode, for the index `encoded[0] - 3`.
unfoldable pub decode_mode : List ℕ → ℕ → ℕ → Result (List ℕ)
decode_mode encoded output_size index = do
  throw_if (leb (length modes) index) (runtime_error "invalid BDI mode")
  let mode = mode_at index
  throw_if
      (not (output_size % mode.value_bytes == 0)
        || not (
            length encoded
            == 1 + mode.base_bytes + output_size / mode.value_bytes * mode.delta_bytes))
      (runtime_error "invalid BDI payload size")
  ok (
      add_deltas encoded (load_little_endian encoded 1 mode.base_bytes) mode (1 + mode.base_bytes)
        (output_size / mode.value_bytes))

unfoldable pub bdi_decode : List ℕ → ℕ → Result (List ℕ)
bdi_decode encoded output_size =
    throw_if (length encoded == 0 || (output_size == 0 || not (output_size % 8 == 0)))
      (invalid_argument "invalid BDI stream or output size")
    >> (let form = get_or encoded 0 0 in
        if form == 0
        then throw_if (not (length encoded == output_size + 1))
            (runtime_error "invalid raw BDI stream")
          >> ok (drop 1 encoded)
        else if form == 1
        then ok (replicate output_size 0)
        else if form == 2
        then throw_if (not (length encoded == 9)) (runtime_error "invalid repeated BDI stream")
          >> ok (repeat_bytes (drop 1 encoded) (output_size / 8))
        else decode_mode encoded output_size (form - 3))

unfoldable pub bdi_encoded_size : List ℕ → Result ℕ
bdi_encoded_size block = do encoded ← bdi_encode block; ok (min (length encoded) (length block))
