-- ===== src/Word/Load.antt =====
-- Storing what was loaded gives the bytes back.
use byte_select.Prelude.{
  ℕ, zero, suc, ◌+◌, ◌*◌, ◌/◌, ◌%◌, ◌^◌, ◌≤◌, ◌<◌, ◌≡◌, refl, sym, ◌∙◌, ap, ap₂,
}
use byte_select.Prelude.{length-take-drop, All-take-drop}
use byte_select.Prelude.{arith, bit_or, List, [], ◌∷◌, length, get_or, take, drop, All}
use byte_select.Prelude.Bits.{or_sum, or_comm, two_pow_add, fields_bound}
use native.Mathlib.Nat.{pow-le-pow_right, add-zero, div-div-eq-div-mul}
use byte_select.Word.{load_loop, load_little_endian, store_loop, store_little_endian}

-- The number that a list of bytes stands for, lowest first.
unfoldable pub number : List ℕ → ℕ
number [] = 0
number (b ∷ bs) = b + 256 * number bs

drop-get_or : (xs : List ℕ) (k : ℕ) → k < length xs → drop k xs ≡ get_or xs k 0 ∷ drop (k + 1) xs
drop-get_or [] k h = elim h [ ]
drop-get_or (x ∷ xs) zero h = refl
drop-get_or (x ∷ xs) (suc k) h =
    let e : suc k + 1 ≡ suc (k + 1) = omega arith in rw e (drop-get_or xs k (omega arith))

abbrev pub IsByte : ℕ → Type 0
IsByte b = b < 2 ^ 8

All-get_or_byte : (xs : List ℕ) (k : ℕ) → All IsByte xs → get_or xs k 0 < 2 ^ 8
All-get_or_byte [] k h = omega arith
All-get_or_byte (x ∷ xs) zero h = h.0
All-get_or_byte (x ∷ xs) (suc k) h = All-get_or_byte xs k h.1

-- One byte more: `value` has `8 * i` bits.
or_byte :
    (value b i : ℕ)
    → value < 2 ^ (8 * i)
    → b < 2 ^ 8
    → i < 8
    → (bit_or value (b * 2 ^ (8 * i) % 2 ^ 64) ≡ value + b * 2 ^ (8 * i))
      × (value + b * 2 ^ (8 * i) < 2 ^ (8 * (i + 1)))
or_byte value b i hv hb hi =
    let bound = fields_bound 8 (8 * i) b value hb hv in
    let cap : 2 ^ (8 + 8 * i) ≤ 2 ^ 64 = pow-le-pow_right (omega arith) {j = 64} (omega arith) in
    let small : b * 2 ^ (8 * i) % 2 ^ 64 ≡ b * 2 ^ (8 * i) = omega (arith, bound, cap) in
    let next : 8 * (i + 1) ≡ 8 + 8 * i = omega arith in
    (
      rw small (or_comm value (b * 2 ^ (8 * i)) ∙ or_sum (8 * i) b value hv ∙ omega arith),
      rw next (omega (arith, bound)),
    )

load_loop-number :
    (block : List ℕ) (offset value i left : ℕ)
    → All IsByte block
    → offset + i + left ≤ length block
    → i + left ≤ 8
    → value < 2 ^ (8 * i)
    → load_loop block offset value i left
      ≡ value + number (take left (drop (offset + i) block)) * 2 ^ (8 * i)
unfolding load_loop number
load_loop-number block offset value i zero hb room h8 hv = omega arith
load_loop-number block offset value i (suc left) hb room h8 hv =
    let b = get_or block (offset + i) 0 in
    let (sum, bound) = or_byte value b i hv (All-get_or_byte block (offset + i) hb) (omega arith) in
    let there : offset + (i + 1) ≡ offset + i + 1 = omega arith in
    let eight : 8 * (i + 1) ≡ 8 * i + 8 = omega arith in
    let scale : 2 ^ (8 * (i + 1)) ≡ 2 ^ (8 * i) * 256 =
      ap (λ (t : ℕ). 2 ^ t) eight ∙ two_pow_add (8 * i) 8 in
    let rest =
      load_loop-number block offset (value + b * 2 ^ (8 * i)) (i + 1) left hb (omega arith)
        (omega arith) bound in
    rw (sum, drop-get_or block (offset + i) (omega arith)) (rest ∙ rw (there, scale) (omega arith))

pub load_little_endian-number :
    (block : List ℕ) (offset width : ℕ)
    → All IsByte block
    → offset + width ≤ length block
    → width ≤ 8
    → load_little_endian block offset width ≡ number (take width (drop offset block))
unfolding load_little_endian
load_little_endian-number block offset width hb room h8 =
    load_loop-number block offset 0 0 width hb (omega arith) (omega arith) (omega arith)
    ∙ rw add-zero (omega arith)

pub store_loop_shift :
    (value i left : ℕ) → store_loop value (i + 1) left ≡ store_loop (value / 256) i left
unfolding store_loop
store_loop_shift value i zero = refl
store_loop_shift value i (suc left) =
    let eight : 8 * (i + 1) ≡ 8 + 8 * i = omega arith in
    ap₂ ◌∷◌
      (ap (λ (t : ℕ). t % 2 ^ 8)
        (ap (λ (t : ℕ). value / 2 ^ t) eight
          ∙ ap (λ (t : ℕ). value / t) (two_pow_add 8 (8 * i))
          ∙ sym (div-div-eq-div-mul value 256 (2 ^ (8 * i)))))
      (store_loop_shift value (i + 1) left)

-- Storing the number of some bytes, as many as they are, gives the bytes.
pub store_little_endian-number :
    (bs : List ℕ) → All IsByte bs → store_little_endian (number bs) (length bs) ≡ bs
unfolding store_little_endian number store_loop
store_little_endian-number [] h = refl
store_little_endian-number (b ∷ bs) (hb, h) = ap₂ ◌∷◌ (omega arith) (
    store_loop_shift (b + 256 * number bs) 0 (length bs)
    ∙ ap (λ (t : ℕ). store_loop t 0 (length bs)) (omega arith)
    ∙ store_little_endian-number bs h)

pub number-lt : (bs : List ℕ) → All IsByte bs → number bs < 2 ^ (8 * length bs)
unfolding number
number-lt [] h = omega arith
number-lt (b ∷ bs) (hb, h) =
    let eight : 8 * length (b ∷ bs) ≡ 8 * length bs + 8 = omega arith in
    rw (eight, two_pow_add) (omega (arith, number-lt bs h))

-- A word of `width` bytes, loaded and stored again.
pub store-load :
    (block : List ℕ) (offset width : ℕ)
    → All IsByte block
    → offset + width ≤ length block
    → width ≤ 8
    → store_little_endian (load_little_endian block offset width) width
      ≡ take width (drop offset block)
store-load block offset width hb room h8 =
    let bytes = take width (drop offset block) in
    let l : length bytes ≡ width = length-take-drop width offset block room in
    ap (λ (t : ℕ). store_little_endian t width)
      (load_little_endian-number block offset width hb room h8)
    ∙ ap (λ (t : ℕ). store_little_endian (number bytes) t) (sym l)
    ∙ store_little_endian-number bytes (All-take-drop IsByte width offset block hb)

-- A `uint32_t` loses nothing of a word of four bytes.
pub load_32-lt :
    (block : List ℕ) (offset : ℕ)
    → All IsByte block
    → offset + 4 ≤ length block
    → load_little_endian block offset 4 < 2 ^ 32
load_32-lt block offset hb room =
    let bytes = take 4 (drop offset block) in
    let bound = number-lt bytes (All-take-drop IsByte 4 offset block hb) in
    let l : length bytes ≡ 4 = length-take-drop 4 offset block room in
    rw (load_little_endian-number block offset 4 hb room (omega arith)) (rw l at bound)

-- A word of `width` bytes is below the power that its bits tell.
pub load-lt :
    (block : List ℕ) (offset width : ℕ)
    → All IsByte block
    → offset + width ≤ length block
    → width ≤ 8
    → load_little_endian block offset width < 2 ^ (8 * width)
load-lt block offset width hb room h8 =
    let bytes = take width (drop offset block) in
    let bound = number-lt bytes (All-take-drop IsByte width offset block hb) in
    rw (load_little_endian-number block offset width hb room h8)
      (rw (length-take-drop width offset block room) at bound)
