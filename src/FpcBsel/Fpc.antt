-- ===== src/FpcBsel/Fpc.antt =====
-- The words and their codes in fpc-bsel/src/fpc.cpp. A `uint32_t` is a number below 2 ^ 32, and `~mask`
-- is `2 ^ 32 - 1 - mask`.
pub mod Words
pub mod Payload
pub mod Blocks
pub mod Baseline
use byte_select.Prelude.{
  ℕ, zero, suc, ◌+◌, ◌-◌, ◌*◌, ◌/◌, ◌%◌, ◌^◌, bit_or, bit_and, Bool, true, false, not, ◌&&◌, ◌||◌,
}
use byte_select.Prelude.{
  List, [], ◌∷◌, ◌++◌, length, get_or, set, replicate, if◌then◌else◌, ◌==◌, ltb,
}
use byte_select.Prelude.{Result, ok, err, ◌>>=◌, ◌>>◌, throw_if, runtime_error, invalid_argument}
use byte_select.FpcBsel.{k_block_size, k_word_count}
use byte_select.FpcBsel.Bits.{BitWriter, BitReader, new_writer, put, get}

unfoldable pub load32 : List ℕ → ℕ → ℕ
load32 block offset =
    bit_or
      (bit_or (bit_or (get_or block offset 0) (get_or block (offset + 1) 0 * 2 ^ 8 % 2 ^ 32))
        (get_or block (offset + 2) 0 * 2 ^ 16 % 2 ^ 32))
      (get_or block (offset + 3) 0 * 2 ^ 24 % 2 ^ 32)

-- `for (i …) out.push_back(static_cast<uint8_t>(value >> (8U * i)))`.
store_loop : ℕ → ℕ → ℕ → List ℕ
store_loop value i zero = []
store_loop value i (suc left) = (value / 2 ^ (8 * i) % 2 ^ 8) ∷ store_loop value (i + 1) left

-- What `store32` appends.
unfoldable pub store32 : ℕ → List ℕ
unfolding store_loop
store32 value = store_loop value 0 4

unfoldable pub sign_extended : ℕ → ℕ → Bool
sign_extended value bits =
    let mask = 2 ^ bits - 1 in
    let low = bit_and value mask in
    value == (if bit_and low (2 ^ (bits - 1)) == 0 then low else bit_or low (2 ^ 32 - 1 - mask))

-- The bit pattern of the `int32_t`.
unfoldable pub extend : ℕ → ℕ → ℕ
extend value bits =
    let mask = 2 ^ bits - 1 in
    let low = bit_and value mask in
    if bit_and low (2 ^ (bits - 1)) == 0 then low else bit_or low (2 ^ 32 - 1 - mask)

unfoldable pub halfword_extended_byte : ℕ → Bool
halfword_extended_byte value =
    let byte = value % 2 ^ 8 in
    value == (if bit_and byte 0x80 == 0 then byte else bit_or 0xff00 byte)

unfoldable pub classify : ℕ → ℕ
classify value =
    if value == 0
    then 0
    else if sign_extended value 4
    then 1
    else if value == value % 2 ^ 8 * 0x01010101 % 2 ^ 32
    then 2
    else if sign_extended value 8
    then 3
    else if sign_extended value 16
    then 4
    else if value % 2 ^ 16 == 0
    then 5
    else if halfword_extended_byte (value % 2 ^ 16)
        && halfword_extended_byte (value / 2 ^ 16 % 2 ^ 16)
    then 6
    else 7

abbrev pub widths : List ℕ
widths = 0 ∷ 4 ∷ 8 ∷ 8 ∷ 16 ∷ 16 ∷ 16 ∷ 32 ∷ []

unfoldable pub payload_bits : ℕ → Result ℕ
payload_bits tag =
    throw_if (ltb 7 tag) (runtime_error "invalid FPC tag") >> ok (get_or widths tag 0)

unfoldable pub write_payload : BitWriter → ℕ → ℕ → Result BitWriter
write_payload w tag value =
    if tag == 0
    then ok w
    else if tag == 1
    then ok (put w (value % 2 ^ 4) 4)
    else if tag == 2 || tag == 3
    then ok (put w (value % 2 ^ 8) 8)
    else if tag == 4
    then ok (put w (value % 2 ^ 16) 16)
    else if tag == 5
    then ok (put w (value / 2 ^ 16) 16)
    else if tag == 6
    then ok (put (put w (value % 2 ^ 8) 8) (value / 2 ^ 16 % 2 ^ 8) 8)
    else if tag == 7
    then ok (put w value 32)
    else err (runtime_error "invalid FPC tag")

unfoldable pub read_payload : ℕ → BitReader → Result (ℕ × BitReader)
read_payload tag r =
    if tag == 0
    then ok (0, r)
    else if tag == 1
    then get r 4 >>= (λ (x, s). ok (extend x 4, s))
    else if tag == 2
    then get r 8 >>= (λ (x, s). ok (x * 0x01010101 % 2 ^ 32, s))
    else if tag == 3
    then get r 8 >>= (λ (x, s). ok (extend x 8, s))
    else if tag == 4
    then get r 16 >>= (λ (x, s). ok (extend x 16, s))
    else if tag == 5
    then get r 16 >>= (λ (x, s). ok (x * 2 ^ 16 % 2 ^ 32, s))
    else if tag == 6
    then get r 8 >>= (λ (x, s).
      get s 8 >>= (λ (y, t). ok (bit_or (extend x 8 % 2 ^ 16) (extend y 8 * 2 ^ 16 % 2 ^ 32), t)))
    else if tag == 7
    then get r 32
    else err (runtime_error "invalid FPC tag")

-- `return std::array` of the tags: the loop of `unpack_tags`.
unfoldable pub read_tags : BitReader → ℕ → Result (List ℕ × BitReader)
read_tags r zero = ok ([], r)
read_tags r (suc left) =
    get r 3 >>= λ (tag, s). read_tags s left >>= λ (tags, t). ok ((tag % 2 ^ 8) ∷ tags, t)

unfoldable pub unpack_tags : List ℕ → Result (List ℕ)
unpack_tags packed = do
  throw_if (not (length packed == 6)) (runtime_error "FPC prefix must occupy six bytes")
  (tags, r) ← read_tags (record { input = packed; byte = 0; bit = 0 }) k_word_count
  ok tags

unfoldable pub put_tags : BitWriter → List ℕ → BitWriter
put_tags w [] = w
put_tags w (tag ∷ tags) = put_tags (put w tag 3) tags

unfoldable pub pack_tags : List ℕ → List ℕ
pack_tags tags = (put_tags new_writer tags).output

-- The loop of `fpc_encode` from `word` on.
unfoldable pub encode_words : BitWriter → List ℕ → ℕ → ℕ → Result BitWriter
encode_words w block word zero = ok w
encode_words w block word (suc left) =
    let value = load32 block (word * 4) in
    write_payload (put w (classify value) 3) (classify value) value >>= λ v.
    encode_words v block (word + 1) left

unfoldable pub fpc_encode : List ℕ → Result (List ℕ)
fpc_encode block = do
  throw_if (not (length block == k_block_size)) (invalid_argument "FPC requires 64-byte blocks")
  w ← encode_words new_writer block 0 k_word_count
  ok w.output

-- The loop of `fpc_decode`: the output and `used_bits`, before and behind.
unfoldable pub decode_words : BitReader → List ℕ → ℕ → ℕ → Result ((List ℕ × ℕ) × BitReader)
decode_words r output used_bits zero = ok ((output, used_bits), r)
decode_words r output used_bits (suc left) = get r 3 >>= λ (tag, s). payload_bits tag >>= λ bits.
    read_payload tag s >>= λ (value, t).
    decode_words t (output ++ store32 value) (used_bits + (3 + bits)) left

unfoldable pub fpc_decode : List ℕ → Result (List ℕ)
fpc_decode encoded =
    decode_words (record { input = encoded; byte = 0; bit = 0 }) [] 0 k_word_count
    >>= λ ((output, used_bits), r).
        throw_if (not (length encoded == (used_bits + 7) / 8))
          (runtime_error "invalid FPC stream length")
        >> ok output
