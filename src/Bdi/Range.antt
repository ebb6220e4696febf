-- ===== src/Bdi/Range.antt =====
-- The values of a block, their minimum, and the test that their deltas fit (src/baseline.cpp).
use byte_select.Prelude.{ℕ, zero, suc, ◌+◌, ◌-◌, ◌*◌, ◌^◌, ◌≤◌, ◌<◌, ◌≡◌, refl, sym, ◌∙◌, ap}
use byte_select.Prelude.{
  arith, List, [], ◌∷◌, ◌++◌, length, take, drop, All, true, take_add, drop_add,
}
use byte_select.Prelude.{ap₂}
use byte_select.Word.{load_little_endian, store_little_endian}
use byte_select.Word.Load.{IsByte, store-load, load-lt}
use native.Mathlib.Nat.{one-le-pow}
use byte_select.Bdi.{values_loop, all_are, minimum, maximum, delta_range_fits, repeat_bytes}

-- What a value satisfies that the mode can code: it is `base` and a delta of `delta_bytes` bytes.
abbrev pub InRange : ℕ → ℕ → ℕ → Type 0
InRange base delta_bytes v = (base ≤ v) × (v - base < 2 ^ (8 * delta_bytes))

pub All-mono : {P Q : ℕ → Type 0} (xs : List ℕ) → ((x : ℕ) → P x → Q x) → All P xs → All Q xs
All-mono [] f h = tt
All-mono (x ∷ xs) f (hx, h) = (f x hx, All-mono xs f h)

minimum_le : (values : List ℕ) → All (λ v. minimum values ≤ v) values
unfolding minimum
minimum_le [] = tt
minimum_le (v ∷ []) = (omega arith, tt)
minimum_le (v ∷ w ∷ values) = (
  omega arith,
  All-mono {P = λ x. minimum (w ∷ values) ≤ x} (w ∷ values) (λ x h. omega (arith, h))
      (minimum_le (w ∷ values)),
)

le_maximum : (values : List ℕ) → All (λ v. v ≤ maximum values) values
unfolding maximum
le_maximum [] = tt
le_maximum (v ∷ values) = (
  omega arith,
  All-mono {P = λ x. x ≤ maximum values} values (λ x h. omega (arith, h)) (le_maximum values),
)

pub All-both : (P Q : ℕ → Type 0) (xs : List ℕ) → All P xs → All Q xs → All (λ x. P x × Q x) xs
All-both P Q [] h k = tt
All-both P Q (x ∷ xs) (hx, h) (kx, k) = ((hx, kx), All-both P Q xs h k)

-- The test says of each value that its delta from the minimum has `delta_bytes` bytes.
pub delta_range_fits-InRange :
    (values : List ℕ) (delta_bytes : ℕ)
    → delta_range_fits values delta_bytes ≡ true
    → All (InRange (minimum values) delta_bytes) values
unfolding delta_range_fits
delta_range_fits-InRange values delta_bytes h =
    let bits : 8 * delta_bytes ≡ delta_bytes * 8 = omega arith in
    let span : maximum values - minimum values ≤ 2 ^ (delta_bytes * 8) - 1 = ground arith in
    let some : 1 ≤ 2 ^ (delta_bytes * 8) = one-le-pow (delta_bytes * 8) 2 (omega arith) in
    All-mono {P = λ v. (minimum values ≤ v) × (v ≤ maximum values)} values
      (λ v (low, high). (low, rw bits (omega (arith, span, some, low, high))))
      (All-both (λ v. minimum values ≤ v) (λ v. v ≤ maximum values) values (minimum_le values)
        (le_maximum values))

-- The values of a block of bytes, each below the power that its bits tell.
pub values_loop-lt :
    (block : List ℕ) (width offset left : ℕ)
    → All IsByte block
    → offset + left * width ≤ length block
    → width ≤ 8
    → All (λ v. v < 2 ^ (8 * width)) (values_loop block width offset left)
unfolding values_loop
values_loop-lt block width offset zero hb room h8 = tt
values_loop-lt block width offset (suc left) hb room h8 =
    let split : suc left * width ≡ width + left * width = omega arith in
    (
      load-lt block offset width hb (omega arith) h8,
      values_loop-lt block width (offset + width) left hb (omega arith) h8,
    )

-- The minimum is below what all values are below.
pub minimum-lt :
    (values : List ℕ) (bound : ℕ)
    → 0 < length values
    → All (λ v. v < bound) values
    → minimum values < bound
minimum-lt [] bound l h = elim l [ ]
minimum-lt (v ∷ values) bound l (hv, h) =
    let low = minimum_le (v ∷ values) in omega (arith, low.0, hv)

pub length-values_loop :
    (block : List ℕ) (width offset left : ℕ) → length (values_loop block width offset left) ≡ left
unfolding values_loop
length-values_loop block width offset zero = refl
length-values_loop block width offset (suc left) =
    ap suc (length-values_loop block width (offset + width) left)

-- A block whose values are all the same is that value, repeated.
pub repeat-all_are :
    (block : List ℕ) (v offset left : ℕ)
    → All IsByte block
    → offset + left * 8 ≤ length block
    → all_are v (values_loop block 8 offset left) ≡ true
    → repeat_bytes (store_little_endian v 8) left ≡ take (left * 8) (drop offset block)
unfolding all_are values_loop repeat_bytes
repeat-all_are block v offset zero hb room h = refl
repeat-all_are block v offset (suc left) hb room h =
    let same : load_little_endian block offset 8 ≡ v = ground arith in
    let others : all_are v (values_loop block 8 (offset + 8) left) ≡ true = ground arith in
    let eight : suc left * 8 ≡ 8 + left * 8 = omega arith in
    let rest = repeat-all_are block v (offset + 8) left hb (omega arith) others in
    let first : store_little_endian v 8 ≡ take 8 (drop offset block) =
      ap (λ (t : ℕ). store_little_endian t 8) (sym same)
      ∙ store-load block offset 8 hb (omega arith) (omega arith) in
    rw (eight, take_add, ← drop_add) (ap₂ ◌++◌ first rest)
