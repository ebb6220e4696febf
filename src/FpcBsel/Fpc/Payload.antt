-- ===== src/FpcBsel/Fpc/Payload.antt =====
-- `read_payload` undoes `write_payload` at the tag that `classify` gives.
use byte_select.Prelude.{ℕ, ◌*◌, ◌/◌, ◌%◌, ◌^◌, ◌<◌, ◌≡◌, refl, sym, ◌∙◌, ap, arith}
use byte_select.Prelude.{
  bit_or, get_or, true, Bool-cases, inl, inr, ◌==◌, ◌&&◌, if◌then◌else◌, ok, ◌>>=◌,
}
use byte_select.Prelude.Bits.{or_sum, or_comm}
use byte_select.Stream
use byte_select.FpcBsel.Bits.{put, get}
use byte_select.FpcBsel.Bits.Views.{view, put-view}
use byte_select.FpcBsel.Coded.{Coded, Coded-put, Coded-bind, Coded-along, Coded-map, Coded-return}
use byte_select.FpcBsel.Fpc.{
  sign_extended, extend, halfword_extended_byte, classify, widths, write_payload, read_payload,
}
use byte_select.FpcBsel.Fpc.Words.{extend-sign_extended, extend-halfword}

-- The payload of a value under a tag is written, in its width, and read back.
abbrev pub Written : Stream.BitWriter → ℕ → ℕ → Type 0
Written w v tag =
    (w' : Stream.BitWriter) × (write_payload (view w) tag v ≡ ok (view w'))
    × Coded w w' (get_or widths tag 0) (read_payload tag) v

module _ (w : Stream.BitWriter) (v : ℕ) (hv : v < 2 ^ 32) where
  zero_word : v ≡ 0 → Written w v 0
  unfolding write_payload read_payload
  zero_word h = (w, refl, Coded-along (sym h) (Coded-return w 0))

  sign_4 : sign_extended v 4 ≡ true → Written w v 1
  unfolding write_payload read_payload
  sign_4 h = (
    Stream.put w (v % 2 ^ 4) 4,
    ap ok (put-view w (v % 2 ^ 4) 4),
    Coded-along (extend-sign_extended v 4 h)
        (Coded-map (λ x. extend x 4) _ (Coded-put w (v % 2 ^ 4) 4)),
  )

  repeated : (v == v % 2 ^ 8 * 0x01010101 % 2 ^ 32) ≡ true → Written w v 2
  unfolding write_payload read_payload
  repeated h = (
    Stream.put w (v % 2 ^ 8) 8,
    ap ok (put-view w (v % 2 ^ 8) 8),
    Coded-along (ground arith)
        (Coded-map (λ x. x * 0x01010101 % 2 ^ 32) _ (Coded-put w (v % 2 ^ 8) 8)),
  )

  sign_8 : sign_extended v 8 ≡ true → Written w v 3
  unfolding write_payload read_payload
  sign_8 h = (
    Stream.put w (v % 2 ^ 8) 8,
    ap ok (put-view w (v % 2 ^ 8) 8),
    Coded-along (extend-sign_extended v 8 h)
        (Coded-map (λ x. extend x 8) _ (Coded-put w (v % 2 ^ 8) 8)),
  )

  sign_16 : sign_extended v 16 ≡ true → Written w v 4
  unfolding write_payload read_payload
  sign_16 h = (
    Stream.put w (v % 2 ^ 16) 16,
    ap ok (put-view w (v % 2 ^ 16) 16),
    Coded-along (extend-sign_extended v 16 h)
        (Coded-map (λ x. extend x 16) _ (Coded-put w (v % 2 ^ 16) 16)),
  )

  high_half : (v % 2 ^ 16 == 0) ≡ true → Written w v 5
  unfolding write_payload read_payload
  high_half h = (
    Stream.put w (v / 2 ^ 16) 16,
    ap ok (put-view w (v / 2 ^ 16) 16),
    Coded-along (ground arith)
        (Coded-map (λ x. x * 2 ^ 16 % 2 ^ 32) _ (Coded-put w (v / 2 ^ 16) 16)),
  )

  halves_sum :
      halfword_extended_byte (v % 2 ^ 16) ≡ true
      → halfword_extended_byte (v / 2 ^ 16 % 2 ^ 16) ≡ true
      → bit_or
          (extend (v % 2 ^ 8 % 2 ^ 8) 8 % 2 ^ 16)
          (extend (v / 2 ^ 16 % 2 ^ 8 % 2 ^ 8) 8 * 2 ^ 16 % 2 ^ 32)
        ≡ v
  halves_sum low high =
      let lower : extend (v % 2 ^ 8 % 2 ^ 8) 8 % 2 ^ 16 ≡ v % 2 ^ 16 =
        ap (λ (t : ℕ). extend t 8 % 2 ^ 16) (omega arith)
        ∙ extend-halfword (v % 2 ^ 16) (omega arith) low in
      let upper : extend (v / 2 ^ 16 % 2 ^ 8 % 2 ^ 8) 8 % 2 ^ 16 ≡ v / 2 ^ 16 =
        ap (λ (t : ℕ). extend t 8 % 2 ^ 16) (omega arith)
        ∙ extend-halfword (v / 2 ^ 16 % 2 ^ 16) (omega arith) high
        ∙ omega arith in
      let shifted : extend (v / 2 ^ 16 % 2 ^ 8 % 2 ^ 8) 8 * 2 ^ 16 % 2 ^ 32 ≡ v / 2 ^ 16 * 2 ^ 16 =
        omega (arith, upper) in
      rw (lower, shifted)
        (or_comm (v % 2 ^ 16) (v / 2 ^ 16 * 2 ^ 16)
          ∙ or_sum 16 (v / 2 ^ 16) (v % 2 ^ 16) (omega arith)
          ∙ omega arith)

  halves :
      halfword_extended_byte (v % 2 ^ 16) ≡ true
      → halfword_extended_byte (v / 2 ^ 16 % 2 ^ 16) ≡ true
      → Written w v 6
  unfolding write_payload read_payload
  halves low high =
      let w₁ = Stream.put w (v % 2 ^ 8) 8 in
      (
        Stream.put w₁ (v / 2 ^ 16 % 2 ^ 8) 8,
        ap (λ t. ok (put t (v / 2 ^ 16 % 2 ^ 8) 8)) (put-view w (v % 2 ^ 8) 8)
            ∙ ap ok (put-view w₁ (v / 2 ^ 16 % 2 ^ 8) 8),
        Coded-along (halves_sum low high) (
            Coded-bind (v % 2 ^ 8 % 2 ^ 8)
              (λ x s.
                get s 8
                >>= (λ (y, t). ok (bit_or (extend x 8 % 2 ^ 16) (extend y 8 * 2 ^ 16 % 2 ^ 32), t)))
              (Coded-put w (v % 2 ^ 8) 8)
              (Coded-map
                (λ y. bit_or (extend (v % 2 ^ 8 % 2 ^ 8) 8 % 2 ^ 16) (extend y 8 * 2 ^ 16 % 2 ^ 32))
                _ (Coded-put w₁ (v / 2 ^ 16 % 2 ^ 8) 8))),
      )

  whole : Written w v 7
  unfolding write_payload read_payload
  whole = (Stream.put w v 32, ap ok (put-view w v 32), Coded-along (omega arith) (Coded-put w v 32))

  last_cases : Written w v (
      if halfword_extended_byte (v % 2 ^ 16) && halfword_extended_byte (v / 2 ^ 16 % 2 ^ 16)
      then 6
      else 7)
  last_cases = elim (Bool-cases (halfword_extended_byte (v % 2 ^ 16))) [
    | inr n₀ ↦ rw n₀ whole
    | inl low ↦ rw low (elim (Bool-cases (halfword_extended_byte (v / 2 ^ 16 % 2 ^ 16))) [
      | inr n₁ ↦ rw n₁ whole
      | inl high ↦ rw high (halves low high)
    ])
  ]

  pub classify-Written : Written w v (classify v)
  unfolding classify
  classify-Written = elim (Bool-cases (v == 0)) [
    | inl e ↦ rw e (zero_word (ground arith))
    | inr n₀ ↦ rw n₀ (elim (Bool-cases (sign_extended v 4)) [
      | inl e ↦ rw e (sign_4 e)
      | inr n₁ ↦ rw n₁ (elim (Bool-cases (v == v % 2 ^ 8 * 0x01010101 % 2 ^ 32)) [
        | inl e ↦ rw e (repeated e)
        | inr n₂ ↦ rw n₂ (elim (Bool-cases (sign_extended v 8)) [
          | inl e ↦ rw e (sign_8 e)
          | inr n₃ ↦ rw n₃ (elim (Bool-cases (sign_extended v 16)) [
            | inl e ↦ rw e (sign_16 e)
            | inr n₄ ↦ rw n₄ (elim (Bool-cases (v % 2 ^ 16 == 0)) [
              | inl e ↦ rw e (high_half e)
              | inr n₅ ↦ rw n₅ last_cases
            ])
          ])
        ])
      ])
    ])
  ]
