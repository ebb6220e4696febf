-- ===== src/Codec/Compress.antt =====
-- `compress` and `decompress` (src/codec.cpp). An `EncodedBlock` that no branch has filled holds
-- the values of its initialisers.
use byte_select.Prelude.{ℕ, zero, suc, ◌+◌, ◌-◌, ◌%◌, ◌^◌, true, false, not, ◌||◌}
use byte_select.Prelude.{
  List, [], ◌∷◌, ◌++◌, map, length, get_or, take, replicate, Option, none, some,
}
use byte_select.Prelude.{if◌then◌else◌, ◌==◌, ltb, leb, Result, ok, ◌>>=◌, ◌>>◌, throw_if}
use byte_select.Prelude.{invalid_argument}
use byte_select.Pattern.{Pattern, Block, rank, size}
use byte_select.Codec.{PatternSet, Model, EncodedBlock, dictionary_size, make_dictionary}
use byte_select.Codec.{encode_pattern_metadata}

-- `PatternSet{}` and `Pattern{}`, read where an index is out of range.
abbrev pub empty_pattern : Pattern
empty_pattern = record { symbols = [] }

abbrev pub empty_set : PatternSet
empty_set = record {
  target_size = 32;
  metadata_bytes = 1;
  patterns = [];
  metadata_tag_bits = 0;
  metadata_tag_value = 0;
}

abbrev pub set_at : Model → ℕ → PatternSet
set_at m i = get_or m.sets i empty_set

-- `std::vector::resize(n, value)`.
abbrev pub resize {ℓ} : {A : Type ℓ} → ℕ → A → List A → List A
resize n v xs = take n xs ++ replicate (n - length xs) v

-- `order[i] = i`, from `i` on, for `n` entries.
unfoldable pub indices : ℕ → ℕ → List ℕ
indices i zero = []
indices i (suc n) = i ∷ indices (i + 1) n

-- `std::stable_sort` of set indices by the target size: an index moves behind the smaller sizes
-- only, so equal sizes keep their order.
unfoldable pub insert_by_target : Model → ℕ → List ℕ → List ℕ
insert_by_target m a [] = a ∷ []
insert_by_target m a (b ∷ order) =
    if ltb (set_at m b).target_size (set_at m a).target_size
    then b ∷ insert_by_target m a order
    else a ∷ b ∷ order

unfoldable pub sort_by_target : Model → List ℕ → List ℕ
unfolding insert_by_target
sort_by_target m [] = []
sort_by_target m (a ∷ order) = insert_by_target m a (sort_by_target m order)

unfoldable pub compressed_block : Block → PatternSet → ℕ → ℕ → Pattern → ℕ → Block → EncodedBlock
compressed_block block s set_index pattern_index p metadata dictionary = record {
  compressed = true;
  original_size = length block;
  encoded_size = (s.metadata_bytes + rank p) % 2 ^ 64;
  allocated_size = s.target_size;
  set_index = set_index;
  pattern_index = pattern_index;
  metadata = metadata;
  dictionary = resize (dictionary_size s) 0 dictionary;
  raw = [];
}

-- The loop over the patterns of a set, from `pattern_index` on: the first that describes the block
-- and whose dictionary fits is taken.
unfoldable pub try_patterns :
    Block → PatternSet → ℕ → ℕ → List Pattern → Result (Option EncodedBlock)
unfolding compressed_block
try_patterns block s set_index pattern_index [] = ok none
try_patterns block s set_index pattern_index (p ∷ ps) =
    let next = try_patterns block s set_index (pattern_index + 1) ps in
    elim (make_dictionary block p) [
      | none ↦ next
      | some dictionary ↦
          if leb (length dictionary) (dictionary_size s)
          then (encode_pattern_metadata s pattern_index >>= λ metadata.
              ok (some (compressed_block block s set_index pattern_index p metadata dictionary)))
          else next
    ]

-- The loop over the sets, in `order`.
unfoldable pub try_sets : Block → Model → List ℕ → Result (Option EncodedBlock)
unfolding try_patterns
try_sets block m [] = ok none
try_sets block m (set_index ∷ order) =
    let s = set_at m set_index in
    let next = try_sets block m order in
    throw_if (leb s.target_size s.metadata_bytes)
      (invalid_argument "model has invalid target/metadata sizes")
    >> (try_patterns block s set_index 0 s.patterns >>= λ found. elim found [
      | some e ↦ ok (some e)
      | none ↦ next
    ])

unfoldable pub raw_block : Block → EncodedBlock
raw_block block = record {
  compressed = false;
  original_size = length block;
  encoded_size = length block;
  allocated_size = length block;
  set_index = 0;
  pattern_index = 0;
  metadata = 0;
  dictionary = [];
  raw = block;
}

unfoldable pub compress : Block → Model → Result EncodedBlock
unfolding raw_block try_sets indices sort_by_target
compress block m = do
  throw_if (not (length block == m.block_size)) (invalid_argument "input block has incorrect size")
  found ← try_sets block m (sort_by_target m (indices 0 (length m.sets)))
  elim found [ some e ↦ ok e | none ↦ ok (raw_block block) ]

-- `output[i] = dictionary[symbols[i]]`.
abbrev pub select : Block → List ℕ → Block
select dictionary symbols = map (λ s. get_or dictionary s 0) symbols

decompress_compressed : EncodedBlock → Model → Result Block
decompress_compressed e m = do
  throw_if (leb (length m.sets) e.set_index) (invalid_argument "encoded set index is out of range")
  let s = set_at m e.set_index
  throw_if (leb (length s.patterns) e.pattern_index)
      (invalid_argument "encoded pattern index is out of range")
  metadata ← encode_pattern_metadata s e.pattern_index
  throw_if (not (e.metadata == metadata))
      (invalid_argument "encoded metadata is inconsistent with pattern index")
  let p = get_or s.patterns e.pattern_index empty_pattern
  throw_if (not (size p == e.original_size) || not (length e.dictionary == dictionary_size s))
      (invalid_argument "encoded dictionary is inconsistent with pattern")
  ok (select e.dictionary p.symbols)

unfoldable pub decompress : EncodedBlock → Model → Result Block
unfolding decompress_compressed
decompress e m = elim e.compressed [
  | false ↦
      throw_if (not (length e.raw == e.original_size))
        (invalid_argument "invalid raw encoded block")
      >> ok e.raw
  | true ↦ decompress_compressed e m
]
