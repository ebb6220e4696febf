-- ===== src/Stream.antt =====
-- The bit streams of the baseline coders: `BitWriter` and `BitReader` (src/baseline.cpp). Bits are
-- stored lowest first. `x & 7U` is `x % 8`, `(x >> i) & 1U` is `x / 2 ^ i % 2`.
pub mod Writer
pub mod Reader
pub mod Split
pub mod Emits
pub mod Fields
mod Examples
use byte_select.Prelude.{ℕ, zero, suc, ◌+◌, ◌-◌, ◌*◌, ◌/◌, ◌%◌, ◌^◌, bit_or, List, [], ◌∷◌, ◌++◌}
use byte_select.Prelude.{length, get_or, set, if◌then◌else◌, ◌==◌, ltb, Result, ok, ◌>>=◌, ◌>>◌}
use byte_select.Prelude.{throw_if, runtime_error}

pub record BitWriter : Type 0 where
  pub bytes : List ℕ
  pub bits : ℕ

abbrev pub new_writer : BitWriter
new_writer = record { bytes = []; bits = 0 }

-- `bytes_.back() |= value`.
unfoldable pub or_back : List ℕ → ℕ → List ℕ
or_back bytes value =
    let last = length bytes - 1 in set bytes last (bit_or (get_or bytes last 0) value)

-- One round of the loop of `put`, for the bit `b`.
unfoldable pub put_bit : BitWriter → ℕ → BitWriter
unfolding or_back
put_bit w b =
    let grown = if w.bits % 8 == 0 then w.bytes ++ (0 ∷ []) else w.bytes in
    record { bytes = if b == 0 then grown else or_back grown (2 ^ (w.bits % 8)); bits = w.bits + 1 }

-- The rounds from `i` on, `left` of them.
unfoldable pub put_loop : BitWriter → ℕ → ℕ → ℕ → BitWriter
unfolding put_bit
put_loop w value i zero = w
put_loop w value i (suc left) = put_loop (put_bit w (value / 2 ^ i % 2)) value (i + 1) left

unfoldable pub put : BitWriter → ℕ → ℕ → BitWriter
unfolding put_loop
put w value count = put_loop w value 0 count

-- `(bytes_[bit_ / 8U] >> (bit_ & 7U)) & 1U`.
abbrev pub bit_at : List ℕ → ℕ → ℕ
bit_at bytes bit = get_or bytes (bit / 8) 0 / 2 ^ (bit % 8) % 2

-- The loop of `get`: the value, and `bit_` behind it.
unfoldable pub get_loop : List ℕ → ℕ → ℕ → ℕ → ℕ → ℕ × ℕ
get_loop bytes bit value i zero = (value, bit)
get_loop bytes bit value i (suc left) =
    get_loop bytes (bit + 1) (bit_or value (bit_at bytes bit * 2 ^ i)) (i + 1) left

-- A `BitReader` is the bytes and the position `bit_`.
unfoldable pub get : List ℕ → ℕ → ℕ → Result (ℕ × ℕ)
unfolding get_loop
get bytes bit count = do
  throw_if (ltb (length bytes * 8) (bit + count)) (runtime_error "truncated baseline bitstream")
  ok (get_loop bytes bit 0 0 count)
