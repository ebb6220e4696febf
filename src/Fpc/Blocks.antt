-- ===== src/Fpc/Blocks.antt =====
-- `fpc_decode` undoes `fpc_encode`.
use byte_select.Prelude.{ℕ, zero, suc, ◌+◌, ◌*◌, ◌/◌, ◌%◌, ◌^◌, ◌≤◌, ◌<◌, ◌≡◌, refl, sym, ◌∙◌, ap}
use byte_select.Prelude.{
  arith, List, [], ◌++◌, length, take, drop, All, ok, ◌>>=◌, take_add, drop_add, take_all,
  Result-cases, inl, inr,
}
use byte_select.Prelude.{append_assoc, append-nil, ◌==◌, not, ◌||◌, false}
use byte_select.Stream.{BitWriter, new_writer}
use byte_select.Stream.Emits.{Emits, Emits-bind, Emits-along, Emits-return, Emits-run, Decoder}
use byte_select.Word.{load_little_endian, store_little_endian}
use byte_select.Word.Load.{IsByte, store-load, load_32-lt}
use byte_select.Fpc.{encode_word, encode_words, fpc_encode, decode_word, decode_words, fpc_decode}
use byte_select.Fpc.RoundTrip.{encode_word-Emits}

-- The rounds of `decode_words`, with the position where they end.
words : ℕ → List ℕ → Decoder (List ℕ)
words zero output bytes p = ok (output, p)
words (suc left) output bytes p =
    decode_word bytes p >>= λ (value, q). words left (output ++ store_little_endian value 4) bytes q

words-run :
    (bytes : List ℕ) (p : ℕ) (output : List ℕ) (left : ℕ) (result : List ℕ) (q : ℕ)
    → words left output bytes p ≡ ok (result, q)
    → decode_words bytes p output left ≡ ok result
unfolding words decode_words
words-run bytes p output zero result q h = ground arith
words-run bytes p output (suc left) result q h = elim (Result-cases (decode_word bytes p)) [
  | inr (x, e) ↦ absurd (ground (arith, rw e at h))
  | inl ((value, t), e) ↦
      rw e (words-run bytes t (output ++ store_little_endian value 4) left result q (rw e at h))
]

encode_words-Emits :
    (block : List ℕ) (w : BitWriter) (output : List ℕ) (offset left : ℕ)
    → All IsByte block
    → offset + left * 4 ≤ length block
    → Emits w
        (encode_words w block offset left)
        (words left output)
        (output ++ take (left * 4) (drop offset block))
unfolding words encode_words
encode_words-Emits block w output offset zero hb room =
    Emits-along (sym (append-nil output)) (Emits-return w output)
encode_words-Emits block w output offset (suc left) hb room =
    let value = load_little_endian block offset 4 in
    let bound = load_32-lt block offset hb (omega arith) in
    let small : value % 2 ^ 32 ≡ value = omega arith in
    let first = take 4 (drop offset block) in
    let four : suc left * 4 ≡ 4 + left * 4 = omega arith in
    let rest =
      encode_words-Emits block (encode_word w (value % 2 ^ 32))
        (output ++ store_little_endian (value % 2 ^ 32) 4) (offset + 4) left hb (omega arith) in
    let whole : (output ++ store_little_endian (value % 2 ^ 32) 4)
          ++ take (left * 4) (drop (offset + 4) block)
        ≡ output ++ take (suc left * 4) (drop offset block) =
      rw (small, store-load block offset 4 hb (omega arith) (omega arith), four, take_add, drop_add)
        (append_assoc output first _) in
    Emits-along whole (
      Emits-bind (value % 2 ^ 32)
        (λ v bytes q. words left (output ++ store_little_endian v 4) bytes q)
        (encode_word-Emits w (value % 2 ^ 32) (omega arith)) rest)

-- For a block of bytes that is not empty and divides into words, `fpc_encode` returns bytes from
-- which `fpc_decode`, given the size of the block, returns the block.
pub fpc_decode-fpc_encode :
    (block : List ℕ)
    → All IsByte block
    → 0 < length block
    → length block % 4 ≡ 0
    → (encoded : List ℕ) × (fpc_encode block ≡ ok encoded)
      × (fpc_decode encoded (length block) ≡ ok block)
unfolding fpc_encode fpc_decode
fpc_decode-fpc_encode block hb some four =
    let fine : (length block == 0 || not (length block % 4 == 0)) ≡ false = ground arith in
    let n = length block / 4 in
    let w = encode_words new_writer block 0 n in
    let run =
      Emits-run w (words n []) (take (n * 4) block)
        (encode_words-Emits block new_writer [] 0 n hb (omega arith)) in
    let all : take (n * 4) block ≡ block = take_all (n * 4) block (omega arith) in
    (
      w.bytes,
      rw fine refl,
      rw fine (words-run w.bytes 0 [] n (take (n * 4) block) w.bits run ∙ ap (λ t. ok t) all),
    )
