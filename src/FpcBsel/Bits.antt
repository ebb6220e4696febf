-- ===== src/FpcBsel/Bits.antt =====
-- The bit streams of fpc-bsel/src/fpc.cpp: `BitWriter` and `BitReader`.
pub mod Views
use byte_select.Prelude.{
  ℕ, zero, suc, ◌+◌, ◌*◌, ◌/◌, ◌%◌, ◌^◌, bit_or, List, [], ◌∷◌, ◌++◌, length, get_or,
}
use byte_select.Prelude.{
  if◌then◌else◌, ◌==◌, leb, Result, ok, err, ◌>>=◌, ◌>>◌, throw_if, runtime_error,
}
use byte_select.Stream.{or_back}

-- `bit` is the position in the last byte, 0 where a new byte is needed.
pub record BitWriter : Type 0 where
  pub output : List ℕ
  pub bit : ℕ

abbrev pub new_writer : BitWriter
new_writer = record { output = []; bit = 0 }

-- One round of the loop of `put`, for the bit `b`.
unfoldable pub put_bit : BitWriter → ℕ → BitWriter
put_bit w b =
    let grown = if w.bit == 0 then w.output ++ (0 ∷ []) else w.output in
    record { output = or_back grown (b * 2 ^ w.bit % 2 ^ 8); bit = (w.bit + 1) % 8 }

-- The rounds from `i` on, `left` of them.
unfoldable pub put_loop : BitWriter → ℕ → ℕ → ℕ → BitWriter
put_loop w value i zero = w
put_loop w value i (suc left) = put_loop (put_bit w (value / 2 ^ i % 2)) value (i + 1) left

unfoldable pub put : BitWriter → ℕ → ℕ → BitWriter
put w value bits = put_loop w value 0 bits

pub record BitReader : Type 0 where
  pub input : List ℕ
  pub byte : ℕ
  pub bit : ℕ

-- `if (++bit_ == 8) { bit_ = 0; ++byte_; }`.
unfoldable pub step : BitReader → BitReader
step r =
    if r.bit + 1 == 8
    then record { input = r.input; byte = r.byte + 1; bit = 0 }
    else record { input = r.input; byte = r.byte; bit = r.bit + 1 }

-- The loop of `get`, from bit `i` of the value on.
unfoldable pub get_loop : BitReader → ℕ → ℕ → ℕ → Result (ℕ × BitReader)
get_loop r value i zero = ok (value, r)
get_loop r value i (suc left) =
    throw_if (leb (length r.input) r.byte) (runtime_error "truncated FPC bitstream")
    >> get_loop (step r) (bit_or value (get_or r.input r.byte 0 / 2 ^ r.bit % 2 * 2 ^ i)) (i + 1)
        left

unfoldable pub get : BitReader → ℕ → Result (ℕ × BitReader)
get r bits = get_loop r 0 0 bits
