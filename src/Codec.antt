-- ===== src/Codec.antt =====
-- The codec (include/byte_select/codec.hpp, src/codec.cpp). `size_t` has 64 bits. A throw is an
-- `err` with the message of the exception. Reads out of range of a vector, which the checks
-- exclude, give the default value here.
pub mod Dictionary
pub mod Metadata
pub mod Validity
pub mod Compress
pub mod Sorting
pub mod RoundTrip
pub mod Least
pub mod Evaluate
pub mod Paper
mod Examples
use byte_select.Prelude.{
  ℕ, zero, suc, ◌+◌, ◌-◌, ◌*◌, ◌/◌, ◌%◌, ◌^◌, bit_and, bit_or, Bool, true, false,
}
use byte_select.Prelude.{
  not, ◌&&◌, ◌||◌, List, [], ◌∷◌, ◌++◌, map, length, get_or, set, take, replicate,
}
use byte_select.Prelude.{Option, none, some, if◌then◌else◌, ◌==◌, ltb, leb, Result, ok, err}
use byte_select.Prelude.{◌>>=◌, ◌>>◌, throw_if, Error, invalid_argument}
use byte_select.Pattern.{Pattern, Block, describes, rank, size}

-- `std::numeric_limits<std::size_t>::digits` and `max()`.
abbrev pub size_digits : ℕ
size_digits = 64

abbrev pub size_max : ℕ
size_max = 2 ^ 64 - 1

abbrev pub sub_size : ℕ → ℕ → ℕ
sub_size a b = (a + 2 ^ 64 - b) % 2 ^ 64

pub record PatternSet : Type 0 where
  pub target_size : ℕ
  pub metadata_bytes : ℕ
  pub patterns : List Pattern
  pub metadata_tag_bits : ℕ
  pub metadata_tag_value : ℕ

abbrev pub dictionary_size : PatternSet → ℕ
dictionary_size s = sub_size s.target_size s.metadata_bytes

abbrev pub metadata_bits : PatternSet → ℕ
metadata_bits s = s.metadata_bytes * 8 % 2 ^ 64

abbrev pub pattern_id_bits : PatternSet → ℕ
pattern_id_bits s = sub_size (metadata_bits s) s.metadata_tag_bits

pub record Model : Type 0 where
  pub block_size : ℕ
  pub sets : List PatternSet

pub record EncodedBlock : Type 0 where
  pub compressed : Bool
  pub original_size : ℕ
  pub encoded_size : ℕ
  pub allocated_size : ℕ
  pub set_index : ℕ
  pub pattern_index : ℕ
  pub metadata : ℕ
  pub dictionary : Block
  pub raw : Block

unfoldable pub value_fits_bits : ℕ → ℕ → Bool
value_fits_bits value bits = if leb size_digits bits then true else ltb value (2 ^ bits)

unfoldable pub count_fits_bits : ℕ → ℕ → Bool
count_fits_bits count bits = if leb size_digits bits then true else leb count (2 ^ bits)

unfoldable pub low_bits_mask : ℕ → ℕ
low_bits_mask bits = if leb size_digits bits then size_max else 2 ^ bits - 1

abbrev pub layout_invalid : Error
layout_invalid = invalid_argument "metadata tag layout is invalid"

unfoldable pub validate_metadata_layout : PatternSet → Result (Unit {0})
validate_metadata_layout s = do
  throw_if (ltb (size_max / 8) s.metadata_bytes) (invalid_argument "metadata width is too large")
  let bits = s.metadata_bytes * 8 % 2 ^ 64
  throw_if (ltb bits s.metadata_tag_bits || ltb size_digits s.metadata_tag_bits) layout_invalid
  let id_bits = sub_size bits s.metadata_tag_bits
  throw_if
      ((not (s.metadata_tag_bits == 0) && leb size_digits id_bits)
        || not (value_fits_bits s.metadata_tag_value s.metadata_tag_bits))
      layout_invalid
  ok tt

-- The loop over the patterns of a set in `validate_model`.
validate_patterns : Model → PatternSet → List Pattern → Result (Unit {0})
validate_patterns m s [] = ok tt
validate_patterns m s (p ∷ ps) = do
  throw_if (not (size p == m.block_size) || ltb (dictionary_size s) (rank p))
      (invalid_argument "pattern is incompatible with model dimensions")
  validate_patterns m s ps

contains : ℕ → List ℕ → Bool
contains x [] = false
contains x (y ∷ ys) = x == y || contains x ys

tag_layout_bad : PatternSet → Bool
unfolding value_fits_bits
tag_layout_bad s =
    ltb (size_max / 8) s.metadata_bytes
    || (ltb (metadata_bits s) s.metadata_tag_bits
        || (ltb size_digits s.metadata_tag_bits
            || ((not (s.metadata_tag_bits == 0) && leb size_digits (pattern_id_bits s))
                || not (value_fits_bits s.metadata_tag_value s.metadata_tag_bits))))

-- The loop over the sets; `target_sizes` holds the sizes that are inserted already.
validate_sets : Model → List ℕ → List PatternSet → Result (Unit {0})
unfolding count_fits_bits contains
validate_sets m target_sizes [] = ok tt
validate_sets m target_sizes (s ∷ rest) = do
  throw_if (s.target_size == 0 || leb s.target_size s.metadata_bytes)
      (invalid_argument "model has invalid target/metadata sizes")
  throw_if (leb m.block_size s.target_size)
      (invalid_argument "compressed target must be smaller than block size")
  throw_if (tag_layout_bad s) (invalid_argument "model has invalid metadata tag layout")
  throw_if (contains s.target_size target_sizes)
      (invalid_argument "model has duplicate target sizes")
  throw_if (not (count_fits_bits (length s.patterns) (pattern_id_bits s)))
      (invalid_argument "pattern count exceeds metadata capacity")
  validate_patterns m s s.patterns
  validate_sets m (s.target_size ∷ target_sizes) rest

is_empty {ℓ} : {A : Type ℓ} → List A → Bool
is_empty [] = true
is_empty (x ∷ xs) = false

unfoldable pub validate_model : Model → Result (Unit {0})
unfolding validate_sets validate_patterns tag_layout_bad is_empty
validate_model m = do
  throw_if (m.block_size == 0 || is_empty m.sets)
      (invalid_argument "model must have a block size and pattern sets")
  validate_sets m [] m.sets

-- The loop of `make_dictionary`.
dictionary_loop : Block → List Bool → List ℕ → Block → Block
dictionary_loop dictionary assigned [] block = dictionary
dictionary_loop dictionary assigned (s ∷ symbols) [] = dictionary
dictionary_loop dictionary assigned (s ∷ symbols) (b ∷ block) = elim (get_or assigned s false) [
  | true ↦ dictionary_loop dictionary assigned symbols block
  | false ↦ dictionary_loop (set dictionary s b) (set assigned s true) symbols block
]

unfoldable pub make_dictionary : Block → Pattern → Option Block
unfolding dictionary_loop
make_dictionary block p =
    if not (describes p block)
    then none
    else some (dictionary_loop (replicate (rank p) 0) (replicate (rank p) false) p.symbols block)

unfoldable pub encode_pattern_metadata : PatternSet → ℕ → Result ℕ
encode_pattern_metadata s pattern_index = do
  validate_metadata_layout s
  throw_if (leb (length s.patterns) pattern_index)
      (invalid_argument "pattern index is not present in the pattern set")
  throw_if (not (value_fits_bits pattern_index (pattern_id_bits s)))
      (invalid_argument "pattern index exceeds metadata capacity")
  ok (
      if s.metadata_tag_bits == 0
      then pattern_index
      else bit_or (s.metadata_tag_value * 2 ^ pattern_id_bits s % 2 ^ 64) pattern_index)

abbrev pub no_pattern : Error
no_pattern = invalid_argument "metadata identifies no pattern in the pattern set"

unfoldable pub decode_pattern_metadata : PatternSet → ℕ → Result ℕ
decode_pattern_metadata s metadata = do
  validate_metadata_layout s
  throw_if (not (value_fits_bits metadata (metadata_bits s)))
      (invalid_argument "metadata exceeds its declared width")
  let pattern_index = bit_and metadata (low_bits_mask (pattern_id_bits s))
  let tag = metadata / 2 ^ pattern_id_bits s
  if s.metadata_tag_bits == 0
      then throw_if (leb (length s.patterns) metadata) no_pattern >> ok metadata
      else throw_if (not (tag == s.metadata_tag_value))
          (invalid_argument "metadata tag does not match target pattern set")
        >> (throw_if (leb (length s.patterns) pattern_index) no_pattern >> ok pattern_index)
