-- ===== src/FpcBsel/Fpc/Words.antt =====
-- The words of a block in fpc-bsel/src/fpc.cpp, against those of src/baseline.cpp, and what `extend`
-- restores.
use byte_select.Prelude.{ℕ, ◌+◌, ◌-◌, ◌*◌, ◌%◌, ◌^◌, ◌≤◌, ◌<◌, ◌≡◌, refl, sym, ◌∙◌, ap₂, arith}
use byte_select.Prelude.{bit_or, bit_and, List, length, get_or, All, All-get_or, true}
use byte_select.Prelude.Bits.{and_ones, and_bit, or_sum, or_comm, or_zero}
use native.Mathlib.Nat.{mod-mod}
use byte_select.Word.{load_little_endian, store_little_endian}
use byte_select.Word.Load.{IsByte}
use byte_select.FpcBsel.Fpc.{load32, store32, sign_extended, extend, halfword_extended_byte}

pub store32-store_little_endian : (value : ℕ) → store32 value ≡ store_little_endian value 4
unfolding store32 store_little_endian
store32-store_little_endian value = refl

pub load32-load_little_endian :
    (block : List ℕ) (offset : ℕ)
    → All IsByte block
    → offset + 4 ≤ length block
    → load32 block offset ≡ load_little_endian block offset 4
unfolding load32 load_little_endian
load32-load_little_endian block offset hb room =
    let b₀ = All-get_or IsByte block offset 0 hb (omega arith) in
    let b₁ = All-get_or IsByte block (offset + 1) 0 hb (omega arith) in
    let b₂ = All-get_or IsByte block (offset + 2) 0 hb (omega arith) in
    let b₃ = All-get_or IsByte block (offset + 3) 0 hb (omega arith) in
    let start : offset + 0 ≡ offset = omega arith in
    let first : get_or block offset 0 ≡ bit_or 0 (get_or block (offset + 0) 0 * 2 ^ 0 % 2 ^ 64) =
      sym (or_comm 0 _ ∙ or_zero _ ∙ rw start (omega arith)) in
    ap₂ bit_or (ap₂ bit_or (ap₂ bit_or first (omega arith)) (omega arith)) (omega arith)

-- `extend` sees the low bits only, and restores a value that is sign extended from them.
pub extend-sign_extended :
    (v bits : ℕ) → sign_extended v bits ≡ true → extend (v % 2 ^ bits % 2 ^ bits) bits ≡ v
unfolding sign_extended extend
extend-sign_extended v bits h =
    let low : bit_and (v % 2 ^ bits % 2 ^ bits) (2 ^ bits - 1) ≡ bit_and v (2 ^ bits - 1) =
      and_ones bits (v % 2 ^ bits % 2 ^ bits)
      ∙ mod-mod (v % 2 ^ bits) (2 ^ bits)
      ∙ mod-mod v (2 ^ bits)
      ∙ sym (and_ones bits v) in
    rw low (sym (ground arith))

-- A halfword that is a sign-extended byte.
pub extend-halfword :
    (v : ℕ)
    → v < 2 ^ 16
    → halfword_extended_byte v ≡ true
    → extend (v % 2 ^ 8 % 2 ^ 8) 8 % 2 ^ 16 ≡ v
unfolding halfword_extended_byte extend
extend-halfword v hv h = ground (
  arith,
  and_ones 8 (v % 2 ^ 8 % 2 ^ 8),
  and_bit 7 (v % 2 ^ 8),
  or_comm (v % 2 ^ 8) (2 ^ 32 - 2 ^ 8),
  or_sum 8 (2 ^ 24 - 1) (v % 2 ^ 8),
  or_sum 8 (2 ^ 8 - 1) (v % 2 ^ 8),
)
