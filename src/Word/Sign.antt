-- ===== src/Word/Sign.antt =====
-- Sign extension undoes the cut to the low bits of a sign-extended value.
use byte_select.Prelude.{ℕ, ◌-◌, ◌%◌, ◌^◌, ◌<◌, ◌≡◌}
use byte_select.Prelude.{arith, true}
use byte_select.Prelude.Bits.{and_ones, or_sum, or_comm, xor_bit, and_bit}
use byte_select.Word.{is_sign_extended, sign_extend, halfword_is_sign_extended_byte}

-- A value that is sign extended from its low bits comes back from them.
pub sign_extend_4 : (v : ℕ) → is_sign_extended v 4 ≡ true → sign_extend (v % 2 ^ 4) 4 ≡ v
unfolding is_sign_extended sign_extend
sign_extend_4 v h = ground (
  arith,
  and_ones 4 v,
  and_bit 3 (v % 2 ^ 4),
  or_comm (v % 2 ^ 4) (2 ^ 32 - 2 ^ 4),
  or_sum 4 (2 ^ 28 - 1) (v % 2 ^ 4),
  xor_bit 3 (v % 2 ^ 4),
)

pub sign_extend_8 : (v : ℕ) → is_sign_extended v 8 ≡ true → sign_extend (v % 2 ^ 8) 8 ≡ v
unfolding is_sign_extended sign_extend
sign_extend_8 v h = ground (
  arith,
  and_ones 8 v,
  and_bit 7 (v % 2 ^ 8),
  or_comm (v % 2 ^ 8) (2 ^ 32 - 2 ^ 8),
  or_sum 8 (2 ^ 24 - 1) (v % 2 ^ 8),
  xor_bit 7 (v % 2 ^ 8),
)

pub sign_extend_16 : (v : ℕ) → is_sign_extended v 16 ≡ true → sign_extend (v % 2 ^ 16) 16 ≡ v
unfolding is_sign_extended sign_extend
sign_extend_16 v h = ground (
  arith,
  and_ones 16 v,
  and_bit 15 (v % 2 ^ 16),
  or_comm (v % 2 ^ 16) (2 ^ 32 - 2 ^ 16),
  or_sum 16 (2 ^ 16 - 1) (v % 2 ^ 16),
  xor_bit 15 (v % 2 ^ 16),
)

-- A halfword that is a sign-extended byte.
pub halfword_low :
    (v : ℕ)
    → v < 2 ^ 16
    → halfword_is_sign_extended_byte v ≡ true
    → sign_extend (v % 2 ^ 8) 8 % 2 ^ 16 ≡ v
unfolding halfword_is_sign_extended_byte sign_extend
halfword_low v hv h = ground (arith, xor_bit 7 (v % 2 ^ 8))
