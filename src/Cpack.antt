-- ===== src/Cpack.antt =====
-- The C-Pack coder, `cpack_encode` and `cpack_decode` (src/baseline.cpp). A dictionary is the list of
-- its words, the oldest first.
pub mod Match
pub mod RoundTrip
pub mod Blocks
mod Examples
use byte_select.Prelude.{
  ℕ, zero, suc, ◌+◌, ◌-◌, ◌*◌, ◌/◌, ◌%◌, ◌^◌, bit_or, bit_and, min, Bool, true, false,
}
use byte_select.Prelude.{
  not, ◌&&◌, ◌||◌, List, [], ◌∷◌, ◌++◌, length, drop, get_or, if◌then◌else◌, ◌==◌, ltb, leb,
}
use byte_select.Prelude.{Result, ok, err, ◌>>=◌, ◌>>◌, throw_if, invalid_argument, runtime_error}
use byte_select.Stream.{BitWriter, new_writer, put, get}
use byte_select.Word.{load_little_endian, store_little_endian}

-- `(word >> 8 * i) & 0xff`.
abbrev pub byte_of : ℕ → ℕ → ℕ
byte_of word i = word / 2 ^ (8 * i) % 2 ^ 8

-- The number of bytes, from the most significant one, in which the entry matches: 0, 2, 3 or 4.
unfoldable pub matches_of : ℕ → ℕ → ℕ
matches_of word entry =
    if byte_of word 3 == byte_of entry 3 && byte_of word 2 == byte_of entry 2
    then (if byte_of word 1 == byte_of entry 1
        then (if byte_of word 0 == byte_of entry 0 then 4 else 3)
        else 2)
    else 0

-- The loop over the dictionary, from entry `i` on: `best_matches` and `best_index` behind it.
unfoldable pub best_loop : ℕ → ℕ → ℕ → ℕ → List ℕ → ℕ × ℕ
best_loop word best_matches best_index i [] = (best_matches, best_index)
best_loop word best_matches best_index i (entry ∷ rest) =
    let better = ltb best_matches (matches_of word entry) in
    best_loop word (if better then matches_of word entry else best_matches)
      (if better then i else best_index) (i + 1) rest

-- The code of a word for the best match found.
unfoldable pub put_match : BitWriter → ℕ → ℕ → ℕ → BitWriter
put_match w word best_matches best_index =
    if best_matches == 4
    then put (put w 1 2) best_index 4
    else if best_matches == 3
    then put (put (put w 7 4) best_index 4) (byte_of word 0) 8
    else if best_matches == 2
    then put (put (put w 3 4) best_index 4) (word % 2 ^ 16) 16
    else put (put w 2 2) word 32

-- The encoder's dictionary takes a word, of 16 entries at most.
unfoldable pub push : List ℕ → ℕ → List ℕ
push dictionary word =
    if ltb (length dictionary) 16
    then dictionary ++ (word ∷ [])
    else drop 1 dictionary ++ (word ∷ [])

-- The body of the loop of `cpack_encode`.
unfoldable pub pack_word : BitWriter → List ℕ → ℕ → BitWriter × List ℕ
pack_word w dictionary word =
    if word == 0
    then (put w 0 2, dictionary)
    else if byte_of word 1 == 0 && (byte_of word 2 == 0 && byte_of word 3 == 0)
    then (put (put w 11 4) (byte_of word 0) 8, dictionary)
    else (let (best_matches, best_index) = best_loop word 1 0 0 dictionary in
        (put_match w word best_matches best_index, push dictionary word))

-- The loop over the words, from `offset` on, `left` of them.
pack_words : BitWriter → List ℕ → List ℕ → ℕ → ℕ → BitWriter
pack_words w dictionary block offset zero = w
pack_words w dictionary block offset (suc left) =
    let (w', dictionary') = pack_word w dictionary (load_little_endian block offset 4 % 2 ^ 32) in
    pack_words w' dictionary' block (offset + 4) left

unfoldable pub cpack_encode : List ℕ → Result (List ℕ)
unfolding pack_words
cpack_encode block = do
  throw_if (length block == 0 || not (length block % 4 == 0))
      (invalid_argument "C-Pack requires a non-empty block divisible by four bytes")
  ok (pack_words new_writer [] block 0 (length block / 4)).bytes

-- `dictionary[index]` behind its guard.
unfoldable pub entry_at : List ℕ → ℕ → Result ℕ
entry_at dictionary index =
    throw_if (leb (length dictionary) index) (runtime_error "invalid C-Pack index")
    >> ok (get_or dictionary index 0)

-- The word and `update`, for a subtype other than 2, behind the index.
unfoldable pub unpack_partial : ℕ → ℕ → List ℕ → ℕ → Result ((ℕ × Bool) × ℕ)
unpack_partial subtype word bytes p =
    if subtype == 0
    then get bytes p 16
      >>= (λ (x, q). ok ((bit_or (bit_and word (2 ^ 32 - 2 ^ 16)) x % 2 ^ 32, true), q))
    else if subtype == 1
    then get bytes p 8
      >>= (λ (x, q). ok ((bit_or (bit_and word (2 ^ 32 - 2 ^ 8)) x % 2 ^ 32, true), q))
    else err (runtime_error "invalid C-Pack subtype")

unfoldable pub unpack_subtype : List ℕ → ℕ → List ℕ → ℕ → Result ((ℕ × Bool) × ℕ)
unpack_subtype dictionary subtype bytes p =
    if subtype == 2
    then get bytes p 8 >>= (λ (x, q). ok ((x % 2 ^ 32, false), q))
    else get bytes p 4
      >>= (λ (index, q). entry_at dictionary index >>= λ word. unpack_partial subtype word bytes q)

unfoldable pub unpack_first : List ℕ → ℕ → List ℕ → ℕ → Result ((ℕ × Bool) × ℕ)
unpack_first dictionary first bytes p =
    if first == 0
    then ok ((0, false), p)
    else if first == 2
    then get bytes p 32 >>= (λ (x, q). ok ((x % 2 ^ 32, true), q))
    else if first == 1
    then get bytes p 4
      >>= (λ (index, q). entry_at dictionary index >>= λ word. ok ((word, true), q))
    else get bytes p 2 >>= (λ (subtype, q). unpack_subtype dictionary subtype bytes q)

-- The word that the body of the loop of `cpack_decode` reads, and `update`.
unfoldable pub unpack_word : List ℕ → List ℕ → ℕ → Result ((ℕ × Bool) × ℕ)
unpack_word dictionary bytes p =
    get bytes p 2 >>= λ (first, q). unpack_first dictionary first bytes q

-- The decoder's dictionary takes a word.
unfoldable pub push_decoded : List ℕ → ℕ → List ℕ
push_decoded dictionary word =
    (if length dictionary == 16 then drop 1 dictionary else dictionary) ++ (word ∷ [])

-- The loop of `cpack_decode`: each round appends four bytes.
unfoldable pub unpack_words : List ℕ → ℕ → List ℕ → List ℕ → ℕ → Result (List ℕ)
unpack_words bytes p dictionary output zero = ok output
unpack_words bytes p dictionary output (suc left) =
    unpack_word dictionary bytes p >>= λ ((word, update), q).
    unpack_words bytes q (if update then push_decoded dictionary word else dictionary)
      (output ++ store_little_endian word 4) left

unfoldable pub cpack_decode : List ℕ → ℕ → Result (List ℕ)
cpack_decode encoded output_size = do
  throw_if (output_size == 0 || not (output_size % 4 == 0))
      (invalid_argument "invalid C-Pack output size")
  unpack_words encoded 0 [] [] (output_size / 4)

unfoldable pub cpack_encoded_size : List ℕ → Result ℕ
cpack_encoded_size block = do encoded ← cpack_encode block; ok (min (length encoded) (length block))
