-- ===== src/Fpc.antt =====
-- Frequent pattern compression, `fpc_encode` and `fpc_decode` (src/baseline.cpp). A word is a
-- number below 2 ^ 32; `x & 0xff` is `x % 2 ^ 8`, and so for the other masks of ones.
pub mod RoundTrip
pub mod Blocks
mod Examples
use byte_select.Prelude.{
  ℕ, zero, suc, ◌+◌, ◌*◌, ◌/◌, ◌%◌, ◌^◌, bit_or, Bool, true, false, not, ◌&&◌,
}
use byte_select.Prelude.{◌||◌, List, [], ◌∷◌, ◌++◌, length, if◌then◌else◌, ◌==◌, Result, ok, err}
use byte_select.Prelude.{◌>>=◌, ◌>>◌, throw_if, invalid_argument, runtime_error, min}
use byte_select.Stream.{BitWriter, new_writer, put, get}
use byte_select.Word.{load_little_endian, store_little_endian, is_sign_extended, sign_extend}
use byte_select.Word.{halfword_is_sign_extended_byte}

-- The four bytes of the word are the same.
abbrev pub is_repeated : ℕ → Bool
is_repeated value =
    let byte = value % 2 ^ 8 in
    value / 2 ^ 8 % 2 ^ 8 == byte
    && (value / 2 ^ 16 % 2 ^ 8 == byte && value / 2 ^ 24 % 2 ^ 8 == byte)

-- The body of the loop of `fpc_encode`.
unfoldable pub encode_word : BitWriter → ℕ → BitWriter
encode_word w value =
    if value == 0
    then put w 0 3
    else if is_sign_extended value 4
    then put (put w 1 3) (value % 2 ^ 4) 4
    else if is_repeated value
    then put (put w 2 3) (value % 2 ^ 8) 8
    else if is_sign_extended value 8
    then put (put w 3 3) (value % 2 ^ 8) 8
    else if is_sign_extended value 16
    then put (put w 4 3) (value % 2 ^ 16) 16
    else if value % 2 ^ 16 == 0
    then put (put w 5 3) (value / 2 ^ 16) 16
    else if halfword_is_sign_extended_byte (value % 2 ^ 16)
        && halfword_is_sign_extended_byte (value / 2 ^ 16 % 2 ^ 16)
    then put (put (put w 6 3) (value % 2 ^ 8) 8) (value / 2 ^ 16 % 2 ^ 8) 8
    else put (put w 7 3) value 32

-- The loop over the words, from `offset` on, `left` of them.
unfoldable pub encode_words : BitWriter → List ℕ → ℕ → ℕ → BitWriter
encode_words w block offset zero = w
encode_words w block offset (suc left) =
    encode_words (encode_word w (load_little_endian block offset 4 % 2 ^ 32)) block (offset + 4)
      left

unfoldable pub fpc_encode : List ℕ → Result (List ℕ)
unfolding encode_words encode_word
fpc_encode block = do
  throw_if (length block == 0 || not (length block % 4 == 0))
      (invalid_argument "FPC requires a non-empty block divisible by four bytes")
  ok (encode_words new_writer block 0 (length block / 4)).bytes

-- The cases of the `switch` on the tag: the value, and the position behind its payload.
unfoldable pub decode_payload : ℕ → List ℕ → ℕ → Result (ℕ × ℕ)
decode_payload tag bytes p =
    if tag == 0
    then ok (0, p)
    else if tag == 1
    then get bytes p 4 >>= (λ (x, q). ok (sign_extend x 4, q))
    else if tag == 2
    then get bytes p 8 >>= (λ (x, q). ok (x * 0x01010101 % 2 ^ 32, q))
    else if tag == 3
    then get bytes p 8 >>= (λ (x, q). ok (sign_extend x 8, q))
    else if tag == 4
    then get bytes p 16 >>= (λ (x, q). ok (sign_extend x 16, q))
    else if tag == 5
    then get bytes p 16 >>= (λ (x, q). ok (x * 2 ^ 16 % 2 ^ 32, q))
    else if tag == 6
    then get bytes p 8 >>= (λ (x, q).
      get bytes q 8
      >>= (λ (y, r). ok (bit_or (sign_extend x 8 % 2 ^ 16) (sign_extend y 8 * 2 ^ 16 % 2 ^ 32), r)))
    else if tag == 7
    then get bytes p 32
    else err (runtime_error "invalid FPC tag")

unfoldable pub decode_word : List ℕ → ℕ → Result (ℕ × ℕ)
decode_word bytes p = get bytes p 3 >>= λ (tag, q). decode_payload tag bytes q

-- The loop of `fpc_decode`: each round appends four bytes, so `output_size / 4` rounds are made.
decode_words : List ℕ → ℕ → List ℕ → ℕ → Result (List ℕ)
decode_words bytes p output zero = ok output
decode_words bytes p output (suc left) = decode_word bytes p >>= λ (value, q).
    decode_words bytes q (output ++ store_little_endian value 4) left

unfoldable pub fpc_decode : List ℕ → ℕ → Result (List ℕ)
unfolding decode_words decode_word decode_payload
fpc_decode encoded output_size = do
  throw_if (output_size == 0 || not (output_size % 4 == 0))
      (invalid_argument "FPC output size must be divisible by four bytes")
  decode_words encoded 0 [] (output_size / 4)

unfoldable pub fpc_encoded_size : List ℕ → Result ℕ
fpc_encoded_size block = do encoded ← fpc_encode block; ok (min (length encoded) (length block))
