-- ===== src/Fpc/RoundTrip.antt =====
-- `decode_word` undoes `encode_word`, whichever of the eight codes it chose.
use byte_select.Prelude.{ℕ, ◌*◌, ◌/◌, ◌%◌, ◌^◌, ◌<◌, ◌≡◌, refl, sym, ◌∙◌, ap}
use byte_select.Prelude.{arith, bit_or, ok}
use byte_select.Prelude.{◌>>=◌, true, Bool-cases, inl, inr, ◌==◌}
use byte_select.Prelude.{◌&&◌, if◌then◌else◌}
use byte_select.Prelude.Bits.{or_sum, or_comm}
use byte_select.Stream.{BitWriter, put, get}
use byte_select.Stream.Emits.{Emits, Emits-put, Emits-bind, Emits-along, Emits-map, Emits-return}
use byte_select.Word.{is_sign_extended, sign_extend, halfword_is_sign_extended_byte}
use byte_select.Word.Sign.{sign_extend_4, sign_extend_8, sign_extend_16, halfword_low}
use byte_select.Fpc.{encode_word, decode_word, decode_payload}
use byte_select.Fpc.{is_repeated}

-- A tag below 8, and the payload that its case decodes.
tagged :
    (w w' : BitWriter) (tag v : ℕ)
    → tag % 2 ^ 3 ≡ tag
    → Emits (put w tag 3) w' (decode_payload tag) v
    → Emits w w' decode_word v
unfolding decode_word
tagged w w' tag v small e = Emits-bind tag decode_payload (Emits-along small (Emits-put w tag 3)) e

module _ (w : BitWriter) (v : ℕ) (hv : v < 2 ^ 32) where
  zero_word : v ≡ 0 → Emits w (put w 0 3) decode_word v
  unfolding decode_payload
  zero_word h = tagged w (put w 0 3) 0 v refl (Emits-along (sym h) (Emits-return (put w 0 3) 0))

  sign_4 : is_sign_extended v 4 ≡ true → Emits w (put (put w 1 3) (v % 2 ^ 4) 4) decode_word v
  unfolding decode_payload
  sign_4 h =
      let same : sign_extend (v % 2 ^ 4 % 2 ^ 4) 4 ≡ v =
        ap (λ (t : ℕ). sign_extend t 4) (omega arith) ∙ sign_extend_4 v h in
      tagged w _ 1 v refl (
        Emits-along same (Emits-map (λ x. sign_extend x 4) _ (Emits-put (put w 1 3) (v % 2 ^ 4) 4)))

  repeated : is_repeated v ≡ true → Emits w (put (put w 2 3) (v % 2 ^ 8) 8) decode_word v
  unfolding decode_payload
  repeated h = tagged w _ 2 v refl (
      Emits-along (ground arith)
        (Emits-map (λ x. x * 0x01010101 % 2 ^ 32) _ (Emits-put (put w 2 3) (v % 2 ^ 8) 8)))

  sign_8 : is_sign_extended v 8 ≡ true → Emits w (put (put w 3 3) (v % 2 ^ 8) 8) decode_word v
  unfolding decode_payload
  sign_8 h =
      let same : sign_extend (v % 2 ^ 8 % 2 ^ 8) 8 ≡ v =
        ap (λ (t : ℕ). sign_extend t 8) (omega arith) ∙ sign_extend_8 v h in
      tagged w _ 3 v refl (
        Emits-along same (Emits-map (λ x. sign_extend x 8) _ (Emits-put (put w 3 3) (v % 2 ^ 8) 8)))

  sign_16 : is_sign_extended v 16 ≡ true → Emits w (put (put w 4 3) (v % 2 ^ 16) 16) decode_word v
  unfolding decode_payload
  sign_16 h =
      let same : sign_extend (v % 2 ^ 16 % 2 ^ 16) 16 ≡ v =
        ap (λ (t : ℕ). sign_extend t 16) (omega arith) ∙ sign_extend_16 v h in
      tagged w _ 4 v refl (
        Emits-along same
          (Emits-map (λ x. sign_extend x 16) _ (Emits-put (put w 4 3) (v % 2 ^ 16) 16)))

  high_half : v % 2 ^ 16 ≡ 0 → Emits w (put (put w 5 3) (v / 2 ^ 16) 16) decode_word v
  unfolding decode_payload
  high_half h = tagged w _ 5 v refl (
      Emits-along (omega arith)
        (Emits-map (λ x. x * 2 ^ 16 % 2 ^ 32) _ (Emits-put (put w 5 3) (v / 2 ^ 16) 16)))

  -- Two halfwords, each a sign-extended byte.
  halves_sum :
      halfword_is_sign_extended_byte (v % 2 ^ 16) ≡ true
      → halfword_is_sign_extended_byte (v / 2 ^ 16 % 2 ^ 16) ≡ true
      → bit_or
          (sign_extend (v % 2 ^ 8 % 2 ^ 8) 8 % 2 ^ 16)
          (sign_extend (v / 2 ^ 16 % 2 ^ 8 % 2 ^ 8) 8 * 2 ^ 16 % 2 ^ 32)
        ≡ v
  halves_sum low high =
      let lower : sign_extend (v % 2 ^ 8 % 2 ^ 8) 8 % 2 ^ 16 ≡ v % 2 ^ 16 =
        ap (λ (t : ℕ). sign_extend t 8 % 2 ^ 16) (omega arith)
        ∙ halfword_low (v % 2 ^ 16) (omega arith) low in
      let upper : sign_extend (v / 2 ^ 16 % 2 ^ 8 % 2 ^ 8) 8 % 2 ^ 16 ≡ v / 2 ^ 16 =
        ap (λ (t : ℕ). sign_extend t 8 % 2 ^ 16) (omega arith)
        ∙ halfword_low (v / 2 ^ 16 % 2 ^ 16) (omega arith) high
        ∙ omega arith in
      let shifted : sign_extend (v / 2 ^ 16 % 2 ^ 8 % 2 ^ 8) 8 * 2 ^ 16 % 2 ^ 32
          ≡ v / 2 ^ 16 * 2 ^ 16 =
        omega (arith, upper) in
      rw (lower, shifted)
        (or_comm (v % 2 ^ 16) (v / 2 ^ 16 * 2 ^ 16)
          ∙ or_sum 16 (v / 2 ^ 16) (v % 2 ^ 16) (omega arith)
          ∙ omega arith)

  halves :
      halfword_is_sign_extended_byte (v % 2 ^ 16) ≡ true
      → halfword_is_sign_extended_byte (v / 2 ^ 16 % 2 ^ 16) ≡ true
      → Emits w (put (put (put w 6 3) (v % 2 ^ 8) 8) (v / 2 ^ 16 % 2 ^ 8) 8) decode_word v
  unfolding decode_payload
  halves low high = tagged w _ 6 v refl (
      Emits-along (halves_sum low high) (
        Emits-bind (v % 2 ^ 8 % 2 ^ 8)
          (λ x bytes q. get bytes q 8 >>= (λ (y, r).
            ok (bit_or (sign_extend x 8 % 2 ^ 16) (sign_extend y 8 * 2 ^ 16 % 2 ^ 32), r)))
          (Emits-put (put w 6 3) (v % 2 ^ 8) 8)
          (Emits-map
            (λ y.
              bit_or (sign_extend (v % 2 ^ 8 % 2 ^ 8) 8 % 2 ^ 16)
                (sign_extend y 8 * 2 ^ 16 % 2 ^ 32))
            _ (Emits-put (put (put w 6 3) (v % 2 ^ 8) 8) (v / 2 ^ 16 % 2 ^ 8) 8))))

  whole : Emits w (put (put w 7 3) v 32) decode_word v
  unfolding decode_payload
  whole = tagged w _ 7 v refl (Emits-along (omega arith) (Emits-put (put w 7 3) v 32))

  last_cases :
      Emits w
        (if halfword_is_sign_extended_byte (v % 2 ^ 16)
            && halfword_is_sign_extended_byte (v / 2 ^ 16 % 2 ^ 16)
          then put (put (put w 6 3) (v % 2 ^ 8) 8) (v / 2 ^ 16 % 2 ^ 8) 8
          else put (put w 7 3) v 32)
        decode_word
        v
  last_cases = elim (Bool-cases (halfword_is_sign_extended_byte (v % 2 ^ 16))) [
    | inr n₀ ↦ rw n₀ whole
    | inl low ↦ rw low (elim (Bool-cases (halfword_is_sign_extended_byte (v / 2 ^ 16 % 2 ^ 16))) [
      | inr n₁ ↦ rw n₁ whole
      | inl high ↦ rw high (halves low high)
    ])
  ]

  pub encode_word-Emits : Emits w (encode_word w v) decode_word v
  unfolding encode_word
  encode_word-Emits = elim (Bool-cases (v == 0)) [
    | inl e ↦ rw e (zero_word (ground arith))
    | inr n₀ ↦ rw n₀ (elim (Bool-cases (is_sign_extended v 4)) [
      | inl e ↦ rw e (sign_4 e)
      | inr n₁ ↦ rw n₁ (elim (Bool-cases (is_repeated v)) [
        | inl e ↦ rw e (repeated e)
        | inr n₂ ↦ rw n₂ (elim (Bool-cases (is_sign_extended v 8)) [
          | inl e ↦ rw e (sign_8 e)
          | inr n₃ ↦ rw n₃ (elim (Bool-cases (is_sign_extended v 16)) [
            | inl e ↦ rw e (sign_16 e)
            | inr n₄ ↦ rw n₄ (elim (Bool-cases (v % 2 ^ 16 == 0)) [
              | inl e ↦ rw e (high_half (ground arith))
              | inr n₅ ↦ rw n₅ last_cases
            ])
          ])
        ])
      ])
    ])
  ]
