-- ===== src/FpcBsel/Fpc/Baseline.antt =====
-- The coder of fpc-bsel/src/fpc.cpp and the baseline coder of src/baseline.cpp make the same bytes.
use byte_select.Prelude.{
  ℕ, zero, suc, ◌+◌, ◌-◌, ◌*◌, ◌/◌, ◌%◌, ◌^◌, ◌≤◌, ◌<◌, ◌≡◌, refl, sym, ◌∙◌, ap, ap₂, arith,
}
use byte_select.Prelude.{Bool-cases, inl, inr, true, false, not, ◌&&◌, ◌||◌, ◌==◌}
use byte_select.Prelude.{List, length, All, ok}
use byte_select.Prelude.Bits.{and_bit, or_sum, or_comm}
use byte_select.Stream
use byte_select.Word.{load_little_endian, is_sign_extended, halfword_is_sign_extended_byte}
use byte_select.Word.Load.{IsByte, load_32-lt}
use byte_select.Fpc
use byte_select.Fpc.{is_repeated, encode_word}
use byte_select.FpcBsel.Bits.{put}
use byte_select.FpcBsel.Bits.Views.{view, put-view}
use byte_select.FpcBsel.Fpc.{
  sign_extended, halfword_extended_byte, classify, write_payload, encode_words, fpc_encode,
}
use byte_select.FpcBsel.Fpc.Words.{load32-load_little_endian}

sign_extended-is_sign_extended : (v bits : ℕ) → sign_extended v bits ≡ is_sign_extended v bits
unfolding sign_extended is_sign_extended
sign_extended-is_sign_extended v bits = refl

repeated-is_repeated : (v : ℕ) → v < 2 ^ 32 → (v == v % 2 ^ 8 * 0x01010101 % 2 ^ 32) ≡ is_repeated v
repeated-is_repeated v h = ground arith

halfword_same : (v : ℕ) → v < 2 ^ 16 → halfword_extended_byte v ≡ halfword_is_sign_extended_byte v
unfolding halfword_extended_byte halfword_is_sign_extended_byte
halfword_same v h = ground (
  arith,
  and_bit 7 (v % 2 ^ 8),
  or_comm 0xff00 (v % 2 ^ 8),
  or_comm (v % 2 ^ 8) 0xff00,
  or_sum 8 (2 ^ 8 - 1) (v % 2 ^ 8),
)

-- A word: its tag, and its payload under the tag.
module _ (w : Stream.BitWriter) (v : ℕ) (hv : v < 2 ^ 32) where
  abbrev Same : ℕ → Stream.BitWriter → Type 0
  Same tag end = write_payload (put (view w) tag 3) tag v ≡ ok (view end)

  one_field :
      (tag value bits : ℕ)
      → put (put (view w) tag 3) value bits ≡ view (Stream.put (Stream.put w tag 3) value bits)
  one_field tag value bits =
      ap (λ t. put t value bits) (put-view w tag 3) ∙ put-view (Stream.put w tag 3) value bits

  two_fields :
      Same 6 (Stream.put (Stream.put (Stream.put w 6 3) (v % 2 ^ 8) 8) (v / 2 ^ 16 % 2 ^ 8) 8)
  unfolding write_payload
  two_fields =
      ap (λ t. ok (put t (v / 2 ^ 16 % 2 ^ 8) 8)) (one_field 6 (v % 2 ^ 8) 8)
      ∙ ap ok (put-view (Stream.put (Stream.put w 6 3) (v % 2 ^ 8) 8) (v / 2 ^ 16 % 2 ^ 8) 8)

  encode_word-view : Same (classify v) (encode_word w v)
  unfolding classify encode_word write_payload sign_extended is_sign_extended
  encode_word-view =
      rw
        (
          sign_extended-is_sign_extended,
          repeated-is_repeated v hv,
          halfword_same (v % 2 ^ 16) (omega arith),
          halfword_same (v / 2 ^ 16 % 2 ^ 16) (omega arith),
        )
        (elim (Bool-cases (v == 0)) [
          | inl e ↦ rw e (ap ok (put-view w 0 3))
          | inr n₀ ↦ rw n₀ (elim (Bool-cases (is_sign_extended v 4)) [
            | inl e ↦ rw e (ap ok (one_field 1 (v % 2 ^ 4) 4))
            | inr n₁ ↦ rw n₁ (elim (Bool-cases (is_repeated v)) [
              | inl e ↦ rw e (ap ok (one_field 2 (v % 2 ^ 8) 8))
              | inr n₂ ↦ rw n₂ (elim (Bool-cases (is_sign_extended v 8)) [
                | inl e ↦ rw e (ap ok (one_field 3 (v % 2 ^ 8) 8))
                | inr n₃ ↦ rw n₃ (elim (Bool-cases (is_sign_extended v 16)) [
                  | inl e ↦ rw e (ap ok (one_field 4 (v % 2 ^ 16) 16))
                  | inr n₄ ↦ rw n₄ (elim (Bool-cases (v % 2 ^ 16 == 0)) [
                    | inl e ↦ rw e (ap ok (one_field 5 (v / 2 ^ 16) 16))
                    | inr n₅ ↦
                        rw n₅
                          (elim (Bool-cases (
                            halfword_is_sign_extended_byte (v % 2 ^ 16)
                            && halfword_is_sign_extended_byte (v / 2 ^ 16 % 2 ^ 16))) [
                              | inl e ↦ rw e two_fields
                              | inr n₆ ↦ rw n₆ (ap ok (one_field 7 v 32))
                            ])
                  ])
                ])
              ])
            ])
          ])
        ])

encode_words-view :
    (block : List ℕ) (w : Stream.BitWriter) (word left : ℕ)
    → All IsByte block
    → word * 4 + left * 4 ≤ length block
    → encode_words (view w) block word left ≡ ok (view (Fpc.encode_words w block (word * 4) left))
unfolding encode_words Fpc.encode_words
encode_words-view block w word zero hb room = refl
encode_words-view block w word (suc left) hb room =
    let v = load_little_endian block (word * 4) 4 in
    let small : v < 2 ^ 32 = load_32-lt block (word * 4) hb (omega arith) in
    let whole : v % 2 ^ 32 ≡ v = omega arith in
    let next : word * 4 + 4 ≡ (word + 1) * 4 = omega arith in
    let step : encode_words (view w) block word (suc left)
        ≡ ok (view (Fpc.encode_words (encode_word w v) block ((word + 1) * 4) left)) =
      rw (load32-load_little_endian block (word * 4) hb (omega arith), encode_word-view w v small)
        (encode_words-view block (encode_word w v) (word + 1) left hb (omega arith)) in
    step
    ∙ ap₂ (λ (x o : ℕ). ok (view (Fpc.encode_words (encode_word w x) block o left))) (sym whole)
        (sym next)

-- For a block of 64 bytes, `fpc_encode` of fpc-bsel returns the bytes that `fpc_encode` of the
-- baselines returns.
pub fpc_encode-baseline :
    (block : List ℕ)
    → All IsByte block
    → length block ≡ 64
    → fpc_encode block ≡ Fpc.fpc_encode block
unfolding fpc_encode Fpc.fpc_encode
fpc_encode-baseline block hb sized =
    let fine : (length block == 64) ≡ true = ground arith in
    let valid : (length block == 0 || not (length block % 4 == 0)) ≡ false = ground arith in
    let words : length block / 4 ≡ 16 = omega arith in
    rw (fine, valid, words, encode_words-view block Stream.new_writer 0 16 hb (omega arith)) refl
