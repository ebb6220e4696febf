-- ===== src/Stream/Split.antt =====
-- A `put` in two parts.
use byte_select.Prelude.{ℕ, zero, suc, ◌+◌, ◌/◌, ◌%◌, ◌^◌, ◌≡◌, refl, sym, ◌∙◌, ap, arith}
use byte_select.Prelude.Bits.{two_pow_add}
use byte_select.Stream.{BitWriter, put_bit, put_loop, put}
use native.Mathlib.Nat.{div-div-eq-div-mul}

put_loop_shift :
    (w : BitWriter) (value a i left : ℕ)
    → put_loop w value (a + i) left ≡ put_loop w (value / 2 ^ a) i left
unfolding put_loop
put_loop_shift w value a i zero = refl
put_loop_shift w value a i (suc left) =
    let bit : value / 2 ^ (a + i) % 2 ≡ value / 2 ^ a / 2 ^ i % 2 =
      ap (λ (t : ℕ). t % 2)
        (ap (λ (t : ℕ). value / t) (two_pow_add a i)
          ∙ sym (div-div-eq-div-mul value (2 ^ a) (2 ^ i))) in
    let next : a + i + 1 ≡ a + (i + 1) = omega arith in
    rw (bit, next) (put_loop_shift (put_bit w (value / 2 ^ a / 2 ^ i % 2)) value a (i + 1) left)

put_loop_add :
    (w : BitWriter) (value i a b : ℕ)
    → put_loop w value i (a + b) ≡ put_loop (put_loop w value i a) value (i + a) b
unfolding put_loop
put_loop_add w value i zero b =
    let (l, r) = two_sums in
    ap (λ (t : ℕ). put_loop w value i t) l ∙ ap (λ (t : ℕ). put_loop w value t b) r
  where
    two_sums : (zero + b ≡ b) × (i ≡ i + zero)
    two_sums = (omega arith, omega arith)
put_loop_add w value i (suc a) b =
    let l : suc a + b ≡ suc (a + b) = omega arith in
    let r : i + suc a ≡ i + 1 + a = omega arith in
    rw (l, r) (put_loop_add (put_bit w (value / 2 ^ i % 2)) value (i + 1) a b)

-- A `put` of `a + b` bits is a `put` of the low `a` bits and one of the bits above them.
pub put-add :
    (w : BitWriter) (value a b : ℕ) → put w value (a + b) ≡ put (put w value a) (value / 2 ^ a) b
unfolding put
put-add w value a b =
    let l : 0 + a ≡ a + 0 = omega arith in
    put_loop_add w value 0 a b
    ∙ ap (λ (t : ℕ). put_loop (put_loop w value 0 a) value t b) l
    ∙ put_loop_shift (put_loop w value 0 a) value a 0 b
