-- ===== src/Prelude/Bits.antt =====
-- Laws of `|`, `&` and `^` at every width, from the digits that the native operations stand for.
use Prim.Native.Nat.{digits, bitwise, differ, bit_and-bitwise, bit_or-bitwise, bit_xor-bitwise}
use byte_select.Prelude.{ℕ, zero, suc, ◌+◌, ◌-◌, ◌*◌, ◌/◌, ◌%◌, ◌^◌, ◌≤◌, ◌<◌, min, max}
use byte_select.Prelude.{
  if◌then◌else◌, ◌==◌, bit_and, bit_or, bit_xor, ◌≡◌, refl, ap, arith, sym, ◌∙◌,
}
use native.Mathlib.Nat.{
  zero-div, le_refl, pow-suc, one-le-pow, mod-lt, div-add-mod, mul_comm, div-div-eq-div-mul,
  mod-eq_of_lt,
}

-- An operation that works digit by digit; `alone` is what is left of `y` when `x` has run out.
module _ (op : ℕ → ℕ → ℕ) (alone : ℕ → ℕ) (digit : ℕ → ℕ → ℕ)
    (means : (x y : ℕ) → op x y ≡ bitwise alone digit x y)
    (alone_step : (y : ℕ) → alone y ≡ alone (y / 2) * 2 + digit 0 (y % 2)) where
  -- Fuel beyond the left operand is not used.
  surplus : (x fuel y : ℕ) → x ≤ fuel → digits alone digit fuel x y ≡ digits alone digit x x y
  surplus x fuel y h = go fuel fuel x y h (le_refl _)
    where
      go :
          (bound fuel x y : ℕ)
          → x ≤ fuel
          → fuel ≤ bound
          → digits alone digit fuel x y ≡ digits alone digit x x y
      go bound zero zero y h k = refl
      go bound (suc fuel) zero y h k = refl
      go bound zero (suc x) y h k = absurd (omega arith)
      go zero (suc fuel) (suc x) y h k = absurd (omega arith)
      go (suc bound) (suc fuel) (suc x) y h k =
          let half = suc x / 2 in
          let small : half ≤ x = omega arith in
          ap (λ (t : ℕ). t * 2 + digit (suc x % 2) (y % 2))
            (go bound fuel half (y / 2) (omega arith) (omega arith)
              ∙ sym (go bound x half (y / 2) small (omega arith)))

  lowest_digit : (x y : ℕ) → op x y ≡ op (x / 2) (y / 2) * 2 + digit (x % 2) (y % 2)
  lowest_digit zero y =
      means 0 y ∙ alone_step y ∙ ap (λ (t : ℕ). t * 2 + digit 0 (y % 2)) (sym (means 0 (y / 2)))
  lowest_digit (suc x) y =
      means (suc x) y
      ∙ ap (λ (t : ℕ). t * 2 + digit (suc x % 2) (y % 2))
          (surplus (suc x / 2) x (y / 2) (omega arith) ∙ sym (means (suc x / 2) (y / 2)))

pub or_digit : (x y : ℕ) → bit_or x y ≡ bit_or (x / 2) (y / 2) * 2 + max (x % 2) (y % 2)
or_digit = lowest_digit bit_or (λ y. y) max bit_or-bitwise (λ y. omega arith)

pub and_digit : (x y : ℕ) → bit_and x y ≡ bit_and (x / 2) (y / 2) * 2 + min (x % 2) (y % 2)
and_digit = lowest_digit bit_and (λ y. 0) min bit_and-bitwise (λ y. omega arith)

pub xor_digit : (x y : ℕ) → bit_xor x y ≡ bit_xor (x / 2) (y / 2) * 2 + differ (x % 2) (y % 2)
xor_digit = lowest_digit bit_xor (λ y. y) differ bit_xor-bitwise (λ y. omega arith)

-- The right operand is 0. The bound is the fuel of an induction that halves.
or_nothing : (bound x : ℕ) → x ≤ bound → bit_or x 0 ≡ x
or_nothing bound zero h = refl
or_nothing zero (suc x) h = elim h [ ]
or_nothing (suc bound) (suc x) h =
    omega (arith, or_digit (suc x) 0, or_nothing bound (suc x / 2) (omega arith))

and_nothing : (bound x : ℕ) → x ≤ bound → bit_and x 0 ≡ 0
and_nothing bound zero h = refl
and_nothing zero (suc x) h = elim h [ ]
and_nothing (suc bound) (suc x) h =
    omega (arith, and_digit (suc x) 0, and_nothing bound (suc x / 2) (omega arith))

double_power : (q k : ℕ) → q * 2 ^ suc k ≡ q * 2 ^ k * 2
double_power q k = ap (λ (t : ℕ). q * t) (pow-suc 2 k) ∙ omega arith

-- `(high << k) | low` is a sum when `low` fits `k` bits.
pub or_sum : (k high low : ℕ) → low < 2 ^ k → bit_or (high * 2 ^ k) low ≡ high * 2 ^ k + low
or_sum zero high low h =
    let none_left : low ≡ 0 = omega arith in
    rw none_left (or_nothing (high * 1) (high * 1) (le_refl _) ∙ omega arith)
or_sum (suc k) high low h =
    let halves : high * 2 ^ suc k / 2 ≡ high * 2 ^ k = omega (arith, double_power high k) in
    let rest = or_sum k high (low / 2) (omega (arith, pow-suc 2 k)) in
    or_digit (high * 2 ^ suc k) low ∙ rw (halves, rest) (omega (arith, double_power high k))

-- The two fields of a word, read back.
pub fields_read : (d q r : ℕ) → r < d → ((q * d + r) / d ≡ q) × ((q * d + r) % d ≡ r)
fields_read d q r h = (grind arith, grind arith)

-- The remainder by twice `d`, from that of the half.
mod_double : (d x m : ℕ) → 1 ≤ d → m ≡ d * 2 → x / 2 % d * 2 + min (x % 2) ((m - 1) % 2) ≡ x % m
mod_double d x m h e =
    let q = x / 2 / d in
    let r = x / 2 % d in
    let small : r * 2 + x % 2 < d * 2 = omega (arith, mod-lt (x / 2) {m = d} h) in
    let split : x ≡ q * (d * 2) + (r * 2 + x % 2) = omega (arith, div-add-mod (x / 2) d) in
    let whole : x % (d * 2) ≡ r * 2 + x % 2 =
      ap (λ (t : ℕ). t % (d * 2)) split ∙ (fields_read (d * 2) q (r * 2 + x % 2) small).1 in
    rw e (omega (arith, whole))

-- A mask of `k` ones is the remainder by `2 ^ k`.
pub and_ones : (k x : ℕ) → bit_and x (2 ^ k - 1) ≡ x % 2 ^ k
and_ones zero x = and_nothing x x (le_refl _) ∙ omega arith
and_ones (suc k) x =
    let half_mask : (2 ^ suc k - 1) / 2 ≡ 2 ^ k - 1 = omega (arith, pow-suc 2 k) in
    and_digit x (2 ^ suc k - 1)
    ∙ rw (half_mask, and_ones k (x / 2))
        (mod_double (2 ^ k) x (2 ^ suc k) (one-le-pow k 2 (omega arith)) (pow-suc 2 k))

differ_zero : (b : ℕ) → differ b 0 ≡ b
differ_zero zero = refl
differ_zero (suc b) = refl

xor_nothing : (bound x : ℕ) → x ≤ bound → bit_xor x 0 ≡ x
xor_nothing bound zero h = refl
xor_nothing zero (suc x) h = elim h [ ]
xor_nothing (suc bound) (suc x) h = omega (
  arith,
  xor_digit (suc x) 0,
  xor_nothing bound (suc x / 2) (omega arith),
  differ_zero (suc x % 2),
)

differ_one : (b : ℕ) → b < 2 → differ b 1 ≡ 1 - b
differ_one zero h = refl
differ_one (suc zero) h = refl
differ_one (suc (suc b)) h = absurd (omega arith)

half_power : (k x : ℕ) → x / 2 ^ suc k ≡ x / 2 / 2 ^ k
half_power k x =
    rw pow-suc (ap (λ (t : ℕ). x / t) (mul_comm (2 ^ k) 2) ∙ sym (div-div-eq-div-mul x 2 (2 ^ k)))

-- `^` with a single bit adds the bit where it is clear and takes it away where it is set.
pub xor_bit : (k x : ℕ) → bit_xor x (2 ^ k) + (x / 2 ^ k % 2) * (2 * 2 ^ k) ≡ x + 2 ^ k
xor_bit zero x =
    let half = xor_nothing (x / 2) (x / 2) (le_refl _) in
    omega (arith, xor_digit x 1, half, differ_one (x % 2) (omega arith))
xor_bit (suc k) x =
    let halved : 2 ^ suc k / 2 ≡ 2 ^ k = omega (arith, pow-suc 2 k) in
    let even : 2 ^ suc k % 2 ≡ 0 = omega (arith, pow-suc 2 k) in
    rw (xor_digit x (2 ^ suc k), halved, even, half_power k x, differ_zero, pow-suc)
      (omega (arith, xor_bit k (x / 2)))

-- Two powers, and a word of a tag of `t` bits over `k` low bits.
pub two_pow_add : (a b : ℕ) → 2 ^ (a + b) ≡ 2 ^ a * 2 ^ b
two_pow_add zero b = let e : 0 + b ≡ b = omega arith in rw e (omega arith)
two_pow_add (suc a) b =
    let e : suc a + b ≡ suc (a + b) = omega arith in
    rw (e, pow-suc, pow-suc) (omega (arith, two_pow_add a b))

pub fields_bound : (t k q r : ℕ) → q < 2 ^ t → r < 2 ^ k → q * 2 ^ k + r < 2 ^ (t + k)
fields_bound t k q r hq hr = rw two_pow_add (grind arith)

or_comm_below : (bound x y : ℕ) → x ≤ bound → y ≤ bound → bit_or x y ≡ bit_or y x
or_comm_below zero zero zero h k = refl
or_comm_below zero zero (suc y) h k = elim k [ ]
or_comm_below zero (suc x) y h k = elim h [ ]
or_comm_below (suc bound) x y h k = omega (
  arith,
  or_digit x y,
  or_digit y x,
  or_comm_below bound (x / 2) (y / 2) (omega arith) (omega arith),
)

pub or_comm : (x y : ℕ) → bit_or x y ≡ bit_or y x
or_comm x y = or_comm_below (x + y) x y (omega arith) (omega arith)

-- Bit `k` of `x | y`.
pub or_bit : (k x y : ℕ) → bit_or x y / 2 ^ k % 2 ≡ max (x / 2 ^ k % 2) (y / 2 ^ k % 2)
or_bit zero x y = omega (arith, or_digit x y)
or_bit (suc k) x y =
    let halved : bit_or x y / 2 ≡ bit_or (x / 2) (y / 2) = omega (arith, or_digit x y) in
    rw (half_power k (bit_or x y), half_power k x, half_power k y, halved)
      (or_bit k (x / 2) (y / 2))

-- Bit `k` of `1 << j`.
pub power_bit : (j k : ℕ) → 2 ^ j / 2 ^ k % 2 ≡ (if j == k then 1 else 0)
power_bit zero zero = refl
power_bit zero (suc k) = rw (half_power k 1) (ground (arith, zero-div (2 ^ k)))
power_bit (suc j) zero = ground (arith, pow-suc 2 j)
power_bit (suc j) (suc k) =
    let halved : 2 ^ suc j / 2 ≡ 2 ^ j = omega (arith, pow-suc 2 j) in
    rw (half_power k (2 ^ suc j), halved) (power_bit j k ∙ ground arith)

-- `&` with a single bit.
pub and_bit : (k x : ℕ) → bit_and x (2 ^ k) ≡ x / 2 ^ k % 2 * 2 ^ k
and_bit zero x = omega (arith, and_digit x 1, and_nothing (x / 2) (x / 2) (le_refl _))
and_bit (suc k) x =
    let halved : 2 ^ suc k / 2 ≡ 2 ^ k = omega (arith, pow-suc 2 k) in
    let even : 2 ^ suc k % 2 ≡ 0 = omega (arith, pow-suc 2 k) in
    rw (and_digit x (2 ^ suc k), halved, even, half_power k x, and_bit k (x / 2), pow-suc)
      (omega arith)

-- `&` with a mask of the bits from `k` on.
and_shifted : (k x m : ℕ) → bit_and x (m * 2 ^ k) ≡ bit_and (x / 2 ^ k) m * 2 ^ k
and_shifted zero x m =
    let one : m * 2 ^ 0 ≡ m = omega arith in
    let whole : x / 2 ^ 0 ≡ x = omega arith in rw (one, whole) (omega arith)
and_shifted (suc k) x m =
    let double = double_power m k in
    let halved : m * 2 ^ suc k / 2 ≡ m * 2 ^ k = omega (arith, double) in
    let even : m * 2 ^ suc k % 2 ≡ 0 = omega (arith, double) in
    let scaled = double_power (bit_and (x / 2 / 2 ^ k) m) k in
    rw (and_digit x (m * 2 ^ suc k), halved, even, half_power k x)
      (omega (arith, and_shifted k (x / 2) m, scaled))

-- The bits from `k` on of a word of `t + k` bits.
pub and_high : (t k x : ℕ) → x / 2 ^ k < 2 ^ t → bit_and x ((2 ^ t - 1) * 2 ^ k) ≡ x / 2 ^ k * 2 ^ k
and_high t k x h =
    and_shifted k x (2 ^ t - 1)
    ∙ ap (λ (y : ℕ). y * 2 ^ k) (and_ones t (x / 2 ^ k) ∙ mod-eq_of_lt h)

pub or_zero : (x : ℕ) → bit_or x 0 ≡ x
or_zero x = or_nothing x x (le_refl _)
