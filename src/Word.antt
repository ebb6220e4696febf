-- ===== src/Word.antt =====
-- Words in a block (src/baseline.cpp): loading, storing and sign extension. A `uint32_t` is a
-- number below 2 ^ 32; `x >> k` is `x / 2 ^ k`, and the cast to a byte is `x % 2 ^ 8`.
pub mod Load
pub mod Sign
pub mod Store
use byte_select.Prelude.{ℕ, zero, suc, ◌+◌, ◌-◌, ◌*◌, ◌/◌, ◌%◌, ◌^◌, bit_and, bit_or, bit_xor, Bool}
use byte_select.Prelude.{List, [], ◌∷◌, get_or, if◌then◌else◌, ◌==◌, ltb, leb}

-- The loop of `load_little_endian`, from byte `i` on.
load_loop : List ℕ → ℕ → ℕ → ℕ → ℕ → ℕ
load_loop block offset value i zero = value
load_loop block offset value i (suc left) =
    load_loop block offset (bit_or value (get_or block (offset + i) 0 * 2 ^ (8 * i) % 2 ^ 64))
      (i + 1) left

unfoldable pub load_little_endian : List ℕ → ℕ → ℕ → ℕ
unfolding load_loop
load_little_endian block offset width = load_loop block offset 0 0 width

-- `for (i …) out.push_back(static_cast<uint8_t>(value >> (8U * i)))`.
unfoldable pub store_loop : ℕ → ℕ → ℕ → List ℕ
store_loop value i zero = []
store_loop value i (suc left) = (value / 2 ^ (8 * i) % 2 ^ 8) ∷ store_loop value (i + 1) left

unfoldable pub store_little_endian : ℕ → ℕ → List ℕ
unfolding store_loop
store_little_endian value width = store_loop value 0 width

-- `~mask` on 32 bits is `2 ^ 32 - 1 - mask`.
unfoldable pub is_sign_extended : ℕ → ℕ → Bool
is_sign_extended value payload_bits =
    let payload_mask = 2 ^ payload_bits - 1 in
    let payload = bit_and value payload_mask in
    let sign_bit = 2 ^ (payload_bits - 1) in
    let extended =
      if bit_and payload sign_bit == 0
      then payload
      else bit_or payload (2 ^ 32 - 1 - payload_mask) in
    value == extended

-- The `int16_t` that a halfword stands for lies from -128 to 127.
unfoldable pub halfword_is_sign_extended_byte : ℕ → Bool
halfword_is_sign_extended_byte value =
    if ltb value (2 ^ 15) then leb value 127 else leb (2 ^ 16 - 128) value

-- `(value ^ sign) - sign`, as the bit pattern of the `int32_t`.
unfoldable pub sign_extend : ℕ → ℕ → ℕ
sign_extend value bits = let sign = 2 ^ (bits - 1) in (bit_xor value sign + 2 ^ 32 - sign) % 2 ^ 32
