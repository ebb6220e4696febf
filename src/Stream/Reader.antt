-- ===== src/Stream/Reader.antt =====
-- A reader gives back what a writer has put.
use byte_select.Prelude.{ℕ, zero, suc, ◌+◌, ◌*◌, ◌/◌, ◌%◌, ◌^◌, ◌≤◌, ◌<◌, ◌≡◌, sym}
use byte_select.Prelude.{◌∙◌, ap, arith, bit_or, List, length, ok}
use byte_select.Prelude.{le→ltb}
use byte_select.Prelude.Bits.{or_sum, or_comm, fields_read}
use byte_select.Stream.{bit_at, get, get_loop}
use byte_select.Stream.Writer.{bits_from, Reads}
use native.Mathlib.Nat.{pow-suc, one-le-pow, div-add-mod, mod-lt, add-zero, zero-add}

-- One more bit of a remainder.
remainder_next : (d v : ℕ) → 0 < d → v / d % 2 * d + v % d ≡ v % (d * 2)
remainder_next d v h =
    let q = v / d / 2 in
    let r = v / d % 2 * d + v % d in
    let small : r < d * 2 = grind (arith, mod-lt v {m = d} h) in
    let whole : v ≡ q * (d * 2) + r =
      omega (arith, div-add-mod v d, ap (λ (t : ℕ). d * t) (div-add-mod (v / d) 2)) in
    sym (ap (λ (t : ℕ). t % (d * 2)) whole ∙ (fields_read (d * 2) q r small).1)

mod_next : (v i : ℕ) → v / 2 ^ i % 2 * 2 ^ i + v % 2 ^ i ≡ v % 2 ^ (i + 1)
mod_next v i =
    let next : i + 1 ≡ suc i = omega arith in
    rw (next, pow-suc) (remainder_next (2 ^ i) v (one-le-pow i 2 (omega arith)))

-- The bits read so far, and one more.
or_next : (v i b : ℕ) → b ≡ v / 2 ^ i % 2 → bit_or (v % 2 ^ i) (b * 2 ^ i) ≡ v % 2 ^ (i + 1)
or_next v i b e =
    let small : v % 2 ^ i < 2 ^ i = mod-lt v {m = 2 ^ i} (one-le-pow i 2 (omega arith)) in
    or_comm (v % 2 ^ i) (b * 2 ^ i) ∙ or_sum i b (v % 2 ^ i) small ∙ rw e (mod_next v i)

get_loop-Reads :
    (bytes : List ℕ) (bit v i left : ℕ)
    → Reads bytes bit (bits_from v i left)
    → get_loop bytes bit (v % 2 ^ i) i left ≡ (v % 2 ^ (i + left), bit + left)
unfolding get_loop bits_from
get_loop-Reads bytes bit v i zero h = rw (add-zero, add-zero)
get_loop-Reads bytes bit v i (suc left) (hb, h) =
    let here : i + suc left ≡ i + 1 + left = omega arith in
    let there : bit + suc left ≡ bit + 1 + left = omega arith in
    rw (or_next v i (bit_at bytes bit) hb, here, there)
      (get_loop-Reads bytes (bit + 1) v (i + 1) left h)

pub get_loop_start :
    (bytes : List ℕ) (bit value count : ℕ)
    → Reads bytes bit (bits_from value 0 count)
    → get_loop bytes bit 0 0 count ≡ (value % 2 ^ count, bit + count)
get_loop_start bytes bit value count h = start ∙ whole
  where
    start : get_loop bytes bit 0 0 count ≡ get_loop bytes bit (value % 2 ^ 0) 0 count
    start = ap (λ (t : ℕ). get_loop bytes bit t 0 count) (omega arith)

    whole : get_loop bytes bit (value % 2 ^ 0) 0 count ≡ (value % 2 ^ count, bit + count)
    whole = rw zero-add at (get_loop-Reads bytes bit value 0 count h)

-- Reading `count` bits where the low bits of a value stand gives the value modulo `2 ^ count`.
pub get-Reads :
    (bytes : List ℕ) (bit value count : ℕ)
    → Reads bytes bit (bits_from value 0 count)
    → bit + count ≤ length bytes * 8
    → get bytes bit count ≡ ok (value % 2 ^ count, bit + count)
unfolding get
get-Reads bytes bit value count h room =
    rw (le→ltb (length bytes * 8) (bit + count) room)
      (ap ok (get_loop_start bytes bit value count h))
