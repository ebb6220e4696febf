-- ===== src/Stream/Writer.antt =====
-- What a writer has written, as a list of bits.
use byte_select.Prelude.{ℕ, zero, suc, ◌+◌, ◌-◌, ◌/◌, ◌%◌, ◌^◌, ◌≤◌, ◌<◌, ◌≡◌, refl, sym}
use byte_select.Prelude.{◌∙◌, ap, arith, bit_or, List, [], ◌∷◌, ◌++◌, length, get_or, set}
use byte_select.Prelude.{
  if◌then◌else◌, ◌==◌, true, false, length-append, length-set, get_or-set_self,
}
use byte_select.Prelude.{get_or-set_ne, append_assoc, append-nil}
use byte_select.Prelude.Bits.{or_bit, power_bit}
use byte_select.Stream.{BitWriter, put_bit, put_loop, put, bit_at, or_back, new_writer}
use native.Mathlib.Decide.{ℕ_discrete}
use native.Mathlib.Nat.{add-zero, zero-div}

-- The bits `i`, `i + 1`, … of a value, `left` of them.
unfoldable pub bits_from : ℕ → ℕ → ℕ → List ℕ
bits_from value i zero = []
bits_from value i (suc left) = (value / 2 ^ i % 2) ∷ bits_from value (i + 1) left

-- From bit `p` on, the bytes hold the bits of the list.
abbrev pub Reads : List ℕ → ℕ → List ℕ → Type 0
Reads bytes p [] = Unit {0}
Reads bytes p (b ∷ bits) = (bit_at bytes p ≡ b) × Reads bytes (p + 1) bits

pub record IsWritten (w : BitWriter) (bits : List ℕ) : Type 0 where
  pub count : w.bits ≡ length bits
  pub size : length w.bytes ≡ (w.bits + 7) / 8
  pub reads : Reads w.bytes 0 bits
  pub clear : (p : ℕ) → w.bits ≤ p → bit_at w.bytes p ≡ 0

bit_at-zero_byte : (bytes : List ℕ) (p : ℕ) → bit_at (bytes ++ (0 ∷ [])) p ≡ bit_at bytes p
bit_at-zero_byte bytes p = ap (λ (t : ℕ). t / 2 ^ (p % 8) % 2) (get_or-zero bytes (p / 8))
  where
    get_or-zero : (xs : List ℕ) (i : ℕ) → get_or (xs ++ (0 ∷ [])) i 0 ≡ get_or xs i 0
    get_or-zero [] zero = refl
    get_or-zero [] (suc i) = refl
    get_or-zero (x ∷ xs) zero = refl
    get_or-zero (x ∷ xs) (suc i) = get_or-zero xs i

-- Setting a bit of the last byte.
bit_at-or_back :
    (bytes : List ℕ) (n p : ℕ)
    → length bytes ≡ n / 8 + 1
    → bit_at (or_back bytes (2 ^ (n % 8))) p ≡ (if p == n then 1 else bit_at bytes p)
unfolding or_back
bit_at-or_back bytes n p l =
    let last : length bytes - 1 ≡ n / 8 = omega arith in
    let old : ℕ = get_or bytes (n / 8) 0 in
    rw last (elim (ℕ_discrete (n / 8) (p / 8)) [
      | yes same ↦
          ap (λ (t : ℕ). t / 2 ^ (p % 8) % 2)
            (ap (λ (k : ℕ). get_or (set bytes (n / 8) (bit_or old (2 ^ (n % 8)))) k 0) (sym same)
              ∙ get_or-set_self bytes (n / 8) (bit_or old (2 ^ (n % 8))) 0 (omega arith))
          ∙ or_bit (p % 8) old (2 ^ (n % 8))
          ∙ ground (
            arith,
            power_bit (n % 8) (p % 8),
            ap (λ (k : ℕ). get_or bytes k 0 / 2 ^ (p % 8) % 2) same,
          )
      | no other ↦
          ap (λ (t : ℕ). t / 2 ^ (p % 8) % 2)
            (get_or-set_ne bytes (n / 8) (p / 8) (bit_or old (2 ^ (n % 8))) 0 other)
          ∙ ground arith
    ])

-- The effect of one round on each bit of the stream.
bit_at-put_bit :
    (w : BitWriter) (bits : List ℕ) (b p : ℕ)
    → IsWritten w bits
    → b < 2
    → bit_at (put_bit w b).bytes p ≡ (if p == w.bits then b else bit_at w.bytes p)
unfolding put_bit
bit_at-put_bit w bits b p v hb = elim (ℕ_discrete (w.bits % 8) 0) [
  | yes full ↦
      let start : (w.bits % 8 == 0) ≡ true = ground arith in
      let size = v.size in
      let grown = length-append w.bytes (0 ∷ []) in
      rw start (
        ground (
          arith,
          bit_at-zero_byte w.bytes p,
          v.clear p,
          bit_at-or_back (w.bytes ++ (0 ∷ [])) w.bits p (omega arith),
        ))
  | no part ↦
      let inner : (w.bits % 8 == 0) ≡ false = ground arith in
      let size = v.size in
      rw inner (ground (arith, v.clear p, bit_at-or_back w.bytes w.bits p (omega arith)))
]

length-or_back : (bytes : List ℕ) (v : ℕ) → length (or_back bytes v) ≡ length bytes
unfolding or_back
length-or_back bytes v = length-set bytes _ _

length-put_bit :
    (w : BitWriter) (bits : List ℕ) (b : ℕ)
    → IsWritten w bits
    → length (put_bit w b).bytes ≡ (w.bits + 8) / 8
unfolding put_bit
length-put_bit w bits b v =
    let size = v.size in
    elim (ℕ_discrete (w.bits % 8) 0) [
      | yes full ↦
          let start : (w.bits % 8 == 0) ≡ true = ground arith in
          rw start (
            ground (
              arith,
              length-append w.bytes (0 ∷ []),
              length-or_back (w.bytes ++ (0 ∷ [])) (2 ^ (w.bits % 8)),
            ))
      | no part ↦
          let inner : (w.bits % 8 == 0) ≡ false = ground arith in
          rw inner (ground (arith, length-or_back w.bytes (2 ^ (w.bits % 8))))
    ]

Reads-same :
    (old new : List ℕ) (p : ℕ) (bits : List ℕ)
    → ((k : ℕ) → k < p + length bits → bit_at new k ≡ bit_at old k)
    → Reads old p bits
    → Reads new p bits
Reads-same old new p [] same h = tt
Reads-same old new p (b ∷ bits) same (hb, h) =
    (same p (omega arith) ∙ hb, Reads-same old new (p + 1) bits (λ k hk. same k (omega arith)) h)

Reads-snoc :
    (bytes : List ℕ) (p : ℕ) (bits : List ℕ) (b : ℕ)
    → Reads bytes p bits
    → bit_at bytes (p + length bits) ≡ b
    → Reads bytes p (bits ++ (b ∷ []))
Reads-snoc bytes p [] b h e = (rw (add-zero p) at e, tt)
Reads-snoc bytes p (c ∷ bits) b (hc, h) e =
    let next : p + length (c ∷ bits) ≡ p + 1 + length bits = omega arith in
    (hc, Reads-snoc bytes (p + 1) bits b h (rw next at e))

put_bit-IsWritten :
    (w : BitWriter) (bits : List ℕ) (b : ℕ)
    → IsWritten w bits
    → b < 2
    → IsWritten (put_bit w b) (bits ++ (b ∷ []))
put_bit-IsWritten w bits b v hb =
    let counted : (put_bit w b).bits ≡ w.bits + 1 = unfold put_bit in refl in
    let effect = λ (p : ℕ). bit_at-put_bit w bits b p v hb in
    record {
      count = omega (arith, v.count, counted, length-append bits (b ∷ []));
      size = length-put_bit w bits b v ∙ rw counted (omega arith);
      reads =
          Reads-snoc (put_bit w b).bytes 0 bits b
            (Reads-same w.bytes (put_bit w b).bytes 0 bits
              (λ k hk. ground (arith, effect k, v.count)) v.reads)
            (ground (arith, effect (0 + length bits), v.count));
      clear = λ p hp. ground (arith, effect p, v.clear p, counted);
    }

put_loop-IsWritten :
    (w : BitWriter) (bits : List ℕ) (value i left : ℕ)
    → IsWritten w bits
    → IsWritten (put_loop w value i left) (bits ++ bits_from value i left)
unfolding put_loop bits_from
put_loop-IsWritten w bits value i zero v = rw append-nil v
put_loop-IsWritten w bits value i (suc left) v =
    let b = value / 2 ^ i % 2 in
    rw (← append_assoc bits (b ∷ []) (bits_from value (i + 1) left)) (
      put_loop-IsWritten (put_bit w b) (bits ++ (b ∷ [])) value (i + 1) left
        (put_bit-IsWritten w bits b v (omega arith)))

-- `put` appends the low `count` bits of the value to the stream.
pub put-IsWritten :
    (w : BitWriter) (bits : List ℕ) (value count : ℕ)
    → IsWritten w bits
    → IsWritten (put w value count) (bits ++ bits_from value 0 count)
unfolding put
put-IsWritten w bits value count v = put_loop-IsWritten w bits value 0 count v

pub new_writer-IsWritten : IsWritten new_writer []
new_writer-IsWritten = record {
  count = refl;
  size = refl;
  reads = tt;
  clear = λ p h. nothing (p / 8) (p % 8);
}
  where
    nothing : (i j : ℕ) → get_or {A = ℕ} [] i 0 / 2 ^ j % 2 ≡ 0
    nothing i j = ground (arith, zero-div (2 ^ j))

pub length-bits_from : (value i left : ℕ) → length (bits_from value i left) ≡ left
unfolding bits_from
length-bits_from value i zero = refl
length-bits_from value i (suc left) = ap suc (length-bits_from value (i + 1) left)

pub Reads-append :
    (bytes : List ℕ) (p : ℕ) (xs ys : List ℕ)
    → Reads bytes p (xs ++ ys)
    → Reads bytes p xs × Reads bytes (p + length xs) ys
Reads-append bytes p [] ys h = (tt, rw add-zero h)
Reads-append bytes p (x ∷ xs) ys (hx, h) =
    let (left, right) = Reads-append bytes (p + 1) xs ys h in
    let next : p + length (x ∷ xs) ≡ p + 1 + length xs = omega arith in ((hx, left), rw next right)
