-- ===== src/FpcBsel/Fpc/Blocks.antt =====
-- `fpc_decode` undoes `fpc_encode` (fpc-bsel/src/fpc.cpp).
use byte_select.Prelude.{
  ℕ, zero, suc, ◌+◌, ◌*◌, ◌/◌, ◌^◌, ◌≤◌, ◌<◌, ◌≡◌, refl, sym, ◌∙◌, ap, ap₂, arith,
}
use byte_select.Prelude.{
  List, [], ◌++◌, length, take, drop, get_or, All, ok, ◌>>=◌, true, false, ◌==◌, ltb,
}
use byte_select.Prelude.{append_assoc, append-nil, take_add, drop_add, take_all}
use native.Mathlib.Nat.{add-zero}
use byte_select.Stream
use byte_select.Word.{load_little_endian}
use byte_select.Word.Load.{IsByte, store-load, load_32-lt}
use byte_select.FpcBsel.Bits.Views.{view, put-view}
use byte_select.FpcBsel.Coded.{Coded, Coded-put, Coded-bind, Coded-along, Coded-return, Coded-run}
use byte_select.FpcBsel.Fpc.{
  load32, store32, classify, widths, payload_bits, read_payload, encode_words, fpc_encode,
  decode_words, fpc_decode,
}
use byte_select.FpcBsel.Fpc.Words.{load32-load_little_endian, store32-store_little_endian}
use byte_select.FpcBsel.Fpc.Payload.{classify-Written}

pub classify-lt : (v : ℕ) → classify v < 8
unfolding classify
classify-lt v = ground arith

pub payload_bits-classify : (v : ℕ) → payload_bits (classify v) ≡ ok (get_or widths (classify v) 0)
unfolding payload_bits
payload_bits-classify v =
    let small = classify-lt v in
    let fine : ltb 7 (classify v) ≡ false = ground arith in rw fine refl

-- A word of the block: its value is below 2 ^ 32, and storing it gives its bytes.
pub store32-load32 :
    (block : List ℕ) (offset : ℕ)
    → All IsByte block
    → offset + 4 ≤ length block
    → (load32 block offset < 2 ^ 32) × (store32 (load32 block offset) ≡ take 4 (drop offset block))
store32-load32 block offset hb room = rw (load32-load_little_endian block offset hb room) (
  load_32-lt block offset hb room,
  store32-store_little_endian (load_little_endian block offset 4)
      ∙ store-load block offset 4 hb room (omega arith),
)

-- The words from `word` on, written behind `w` and read from there.
WordStream : List ℕ → Stream.BitWriter → ℕ → ℕ → List ℕ → ℕ → Type 0
WordStream block w word left output used_bits =
    (w' : Stream.BitWriter) × (bits : ℕ) × (encode_words (view w) block word left ≡ ok (view w'))
    × Coded w w' bits (λ r. decode_words r output used_bits left)
        (output ++ take (left * 4) (drop (word * 4) block), used_bits + bits)

encode_words-Coded :
    (block : List ℕ) (w : Stream.BitWriter) (word left : ℕ) (output : List ℕ) (used_bits : ℕ)
    → All IsByte block
    → word * 4 + left * 4 ≤ length block
    → WordStream block w word left output used_bits
unfolding WordStream encode_words decode_words
encode_words-Coded block w word zero output used hb room = (
  w,
  0,
  refl,
  Coded-along (ap₂ (λ (o : List ℕ) (u : ℕ). (o, u)) (sym (append-nil output)) (sym (add-zero used)))
      (Coded-return w (output, used)),
)
encode_words-Coded block w word (suc left) output used hb room =
    let v = load32 block (word * 4) in
    let (small, bytes) = store32-load32 block (word * 4) hb (omega arith) in
    let tag = classify v in
    let w₁ = Stream.put w tag 3 in
    let (w₂, written, payload) = classify-Written w₁ v small in
    let width = get_or widths tag 0 in
    let (w₃, bits, rest, code) =
      encode_words-Coded block w₂ (word + 1) left (output ++ store32 v) (used + (3 + width)) hb
        (omega arith) in
    let eight = classify-lt v in
    let four : suc left * 4 ≡ 4 + left * 4 = omega arith in
    let next : (word + 1) * 4 ≡ word * 4 + 4 = omega arith in
    let total : used + (3 + width) + bits ≡ used + (3 + (width + bits)) = omega arith in
    let whole : (output ++ store32 v) ++ take (left * 4) (drop ((word + 1) * 4) block)
        ≡ output ++ take (suc left * 4) (drop (word * 4) block) =
      rw (bytes, four, take_add, next, drop_add)
        (append_assoc output (take 4 (drop (word * 4) block)) _) in
    (
      w₃,
      3 + (width + bits),
      rw (put-view w tag 3, written) rest,
      Coded-along (ap₂ (λ (o : List ℕ) (u : ℕ). (o, u)) whole total) (
          Coded-bind tag
            (λ t s. payload_bits t >>= λ b. read_payload t s >>= λ (x, r).
              decode_words r (output ++ store32 x) (used + (3 + b)) left)
            (Coded-along (omega arith) (Coded-put w tag 3))
            (rw (payload_bits-classify v) (
              Coded-bind v (λ x r. decode_words r (output ++ store32 x) (used + (3 + width)) left)
                payload code))),
    )

-- For a block of 64 bytes, `fpc_encode` returns bytes from which `fpc_decode` returns the block.
pub fpc_decode-fpc_encode_block :
    (block : List ℕ)
    → All IsByte block
    → length block ≡ 64
    → (encoded : List ℕ) × (fpc_encode block ≡ ok encoded) × (fpc_decode encoded ≡ ok block)
unfolding fpc_encode fpc_decode WordStream
fpc_decode-fpc_encode_block block hb sized =
    let (w, bits, written, code) =
      encode_words-Coded block Stream.new_writer 0 16 [] 0 hb (omega arith) in
    let (size, run) =
      Coded-run w bits (λ r. decode_words r [] 0 16) (take (16 * 4) block, 0 + bits) code in
    let fits : (length w.bytes == (0 + bits + 7) / 8) ≡ true = ground arith in
    let fine : (length block == 64) ≡ true = ground arith in
    (
      w.bytes,
      rw (fine, written) refl,
      rw (run, fits) (ap (λ t. ok t) (take_all 64 block (omega arith))),
    )
