-- ===== src/Lib.antt =====
-- Byte Select compression of cache blocks: the C++ library under include/byte_select and src.
--
-- The program compresses fixed-size blocks of bytes. A trained model holds sets of patterns, one set
-- for each target size. A pattern names, for each byte of a block, the dictionary byte that stands
-- there; a block that a pattern describes is stored as a metadata word and the dictionary. Baseline
-- coders of the literature stand beside it for comparison.
--
-- Which file models which part:
--   Prelude    lists, Boolean tests, bits of numbers, and `Result` for the C++ exceptions
--   Pattern    src/pattern.cpp and include/byte_select/pattern.hpp: canonicalize, simplest, rank,
--              describes, less_equal, least_upper_bound
--   Codec      src/codec.cpp and include/byte_select/codec.hpp: validate_model, the metadata words,
--              make_dictionary, compress, decompress; Codec.Evaluate: evaluate,
--              evaluate_byte_select_upper_bound, OnlineCompressor, OnlineDecompressor
--   Codec.Paper src/paper_config.cpp and include/byte_select/paper_config.hpp
--   Word       src/baseline.cpp: load_little_endian, the loops that store bytes, sign extension
--   Stream     src/baseline.cpp: BitWriter, BitReader
--   Fpc        src/baseline.cpp: fpc_encode, fpc_decode, fpc_encoded_size
--   Cpack      src/baseline.cpp: cpack_encode, cpack_decode, cpack_encoded_size
--   Bdi        src/baseline.cpp: bdi_encode, bdi_decode, bdi_encoded_size
--   Lz77       src/baseline.cpp: find_lz_match, lz77_lite_encode, lz77_lite_decode
--   Sizes      src/baseline.cpp: quantized_size
--   Kinds      src/baseline.cpp: parse_baseline_kind, baseline_kind_name
--   Trainer    src/trainer.cpp: coverage, maximal_patterns, remove_below, combine_greedily
--              and (in Trainer/Selection) the exhaustive selection
--   FpcBsel    fpc-bsel/src/fpc.cpp (Bits, Fpc, Parts), bsel.cpp (Bsel), codec.cpp (Codec) and model.cpp
--              (Model): the program that splits a block of 64 bytes by its FPC tags and codes tags and raw words by
--              patterns
-- The codec uses the patterns through `describes`, `rank` and the symbols; the coders put their codes
-- on a Stream and read the words of a block by Word. Stream.Emits is the interface between a coder
-- and its round trip: a record that says what was written and what a decoder gets there; FpcBsel.Coded is the
-- same for the readers of fpc-bsel.
--
-- How the code is translated. A function that may throw returns a `Result`: `ok` of the value, or
-- `err` of the exception with its message. A container is a list, an unordered_map from numbers is
-- a function to an Option, a C++ loop is a recursion on the list or on the number of rounds left.
-- The outer loops of LZ77-lite run on fuel, the number of bytes of the block, which is enough as
-- each round makes one at least. The loop of combine_greedily runs on the number of patterns, which
-- is enough as each round leaves one fewer at least, and so does the exhaustive selection. An
-- unsigned integer is a natural number with its wrap-around written out: `x << k` on w bits is `x * 2 ^ k % 2 ^ w`, `x >> k` is
-- `x / 2 ^ k`, a cast to w bits is `x % 2 ^ w`; `|`, `&` and `^` are bit_or, bit_and and bit_xor. A
-- byte is a number below 2 ^ 8; where a theorem needs that, it says so. `size_t` has 64 bits and
-- does not wrap at sizes of blocks that fit in memory, so sizes are plain numbers. Symbols have 16
-- bits, and canonicalize counts them in a uint16_t, so the theorems on patterns ask for fewer than
-- 65536 symbols.
--
-- Not modelled: text formats and file access (parse, to_string, src/model_io.cpp), the lazy
-- selection and the counting of patterns in src/trainer.cpp, the hardware generator (src/rtl.cpp),
-- the command line (src/main.cpp), the coders BPC and Huffman, the wrappers of the zstd and lz4 libraries, the
-- command line of fpc-bsel, and the compression ratios in floating point. gapbs-master is a
-- vendored benchmark suite.
pub mod Prelude
pub mod Pattern
pub mod Codec
pub mod Stream
pub mod Word
pub mod Fpc
pub mod Cpack
pub mod Bdi
pub mod Sizes
pub mod Lz77
pub mod Kinds
pub mod FpcBsel
pub mod Trainer
