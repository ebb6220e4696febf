-- ===== src/FpcBsel/Bits/Views.antt =====
-- The streams of fpc-bsel and those of the baselines (src/baseline.cpp) hold the same bytes.
use byte_select.Prelude.{
  ℕ, zero, suc, ◌+◌, ◌-◌, ◌*◌, ◌/◌, ◌%◌, ◌^◌, ◌≤◌, ◌<◌, ◌≡◌, refl, ◌∙◌, ap, arith, bit_or,
}
use byte_select.Prelude.{List, [], ◌∷◌, length, get_or, set, ok, ◌==◌, true, false, leb}
use byte_select.Prelude.Bits.{or_zero}
use native.Mathlib.Nat.{pow-le-pow_right}
use native.Mathlib.Decide.{ℕ_discrete}
use byte_select.Stream
use byte_select.Stream.{or_back}
use byte_select.Stream.Writer.{bits_from, length-bits_from}
use byte_select.Stream.Reader.{get_loop_start}
use byte_select.Stream.Emits.{Carries}
use byte_select.FpcBsel.Bits.{BitWriter, put_bit, put_loop, put, BitReader, step, get_loop, get}

-- The writer of fpc-bsel in the state of a writer of the baselines.
abbrev pub view : Stream.BitWriter → BitWriter
view w = record { output = w.bytes; bit = w.bits % 8 }

set-get_or : (xs : List ℕ) (i : ℕ) → set xs i (get_or xs i 0) ≡ xs
set-get_or [] i = refl
set-get_or (x ∷ xs) zero = refl
set-get_or (x ∷ xs) (suc i) = ap (λ t. x ∷ t) (set-get_or xs i)

or_back_zero : (xs : List ℕ) → or_back xs 0 ≡ xs
unfolding or_back
or_back_zero xs = rw or_zero (set-get_or xs (length xs - 1))

shifted_bit : (k : ℕ) → k < 8 → 1 * 2 ^ k % 2 ^ 8 ≡ 2 ^ k
shifted_bit k h =
    let cap : 2 ^ k ≤ 2 ^ 7 = pow-le-pow_right (omega arith) {j = 7} (omega arith) in
    omega (arith, cap)

writer_path : {v w : BitWriter} → v.output ≡ w.output → v.bit ≡ w.bit → v ≡ w
writer_path e f = λ i. record { output = e i; bit = f i }

put_bit-view :
    (w : Stream.BitWriter) (b : ℕ) → b < 2 → put_bit (view w) b ≡ view (Stream.put_bit w b)
unfolding put_bit Stream.put_bit
put_bit-view w zero h =
    let none : 0 * 2 ^ (w.bits % 8) % 2 ^ 8 ≡ 0 = omega arith in
    writer_path (rw none (or_back_zero _)) (omega arith)
put_bit-view w (suc zero) h =
    writer_path (rw (shifted_bit (w.bits % 8) (omega arith)) refl) (omega arith)
put_bit-view w (suc (suc b)) h = absurd (omega arith)

put_loop-view :
    (w : Stream.BitWriter) (value i left : ℕ)
    → put_loop (view w) value i left ≡ view (Stream.put_loop w value i left)
unfolding put_loop Stream.put_loop
put_loop-view w value i zero = refl
put_loop-view w value i (suc left) =
    rw (put_bit-view w (value / 2 ^ i % 2) (omega arith))
      (put_loop-view (Stream.put_bit w (value / 2 ^ i % 2)) value (i + 1) left)

-- The two writers put the same bytes.
pub put-view :
    (w : Stream.BitWriter) (value bits : ℕ)
    → put (view w) value bits ≡ view (Stream.put w value bits)
unfolding put Stream.put
put-view w value bits = put_loop-view w value 0 bits

-- The reader that stands at a position of the bytes.
abbrev pub reader_at : List ℕ → ℕ → BitReader
reader_at bytes p = record { input = bytes; byte = p / 8; bit = p % 8 }

reader_path : {r s : BitReader} → r.input ≡ s.input → r.byte ≡ s.byte → r.bit ≡ s.bit → r ≡ s
reader_path e f g = λ i. record { input = e i; byte = f i; bit = g i }

step-reader_at : (bytes : List ℕ) (p : ℕ) → step (reader_at bytes p) ≡ reader_at bytes (p + 1)
unfolding step
step-reader_at bytes p = elim (ℕ_discrete (p % 8 + 1) 8) [
  | yes e ↦
      let full : (p % 8 + 1 == 8) ≡ true = ground arith in
      rw full (reader_path refl (omega arith) (omega arith))
  | no ne ↦
      let part : (p % 8 + 1 == 8) ≡ false = ground arith in
      rw part (reader_path refl (omega arith) (omega arith))
]

get_loop-reader_at :
    (bytes : List ℕ) (p value i left : ℕ)
    → p + left ≤ length bytes * 8
    → get_loop (reader_at bytes p) value i left
      ≡ ok ((Stream.get_loop bytes p value i left).0, reader_at bytes (p + left))
unfolding get_loop Stream.get_loop
get_loop-reader_at bytes p value i zero h =
    ap (λ (t : ℕ). ok (value, reader_at bytes t)) (omega arith)
get_loop-reader_at bytes p value i (suc left) h =
    let inside : leb (length bytes) (p / 8) ≡ false = ground arith in
    let next : p + suc left ≡ p + 1 + left = omega arith in
    rw (inside, step-reader_at, next)
      (get_loop-reader_at bytes (p + 1)
        (bit_or value (get_or bytes (p / 8) 0 / 2 ^ (p % 8) % 2 * 2 ^ i)) (i + 1) left
        (omega arith))

-- Where the bytes hold the low bits of a value, the reader gets them and stands behind them.
pub get-Carries :
    (bytes : List ℕ) (p value bits : ℕ)
    → Carries bytes p (bits_from value 0 bits)
    → get (reader_at bytes p) bits ≡ ok (value % 2 ^ bits, reader_at bytes (p + bits))
unfolding get
get-Carries bytes p value bits h =
    let l = length-bits_from value 0 bits in
    let room = h.room in
    get_loop-reader_at bytes p 0 0 bits (omega arith)
    ∙ ap (λ (t : ℕ × ℕ). ok (t.0, reader_at bytes (p + bits)))
        (get_loop_start bytes p value bits h.reads)
