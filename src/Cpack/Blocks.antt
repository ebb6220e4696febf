-- ===== src/Cpack/Blocks.antt =====
-- `cpack_decode` undoes `cpack_encode`: the two dictionaries go through the same states.
use byte_select.Prelude.{
  ℕ, zero, suc, ◌+◌, ◌-◌, ◌*◌, ◌/◌, ◌%◌, ◌^◌, ◌≤◌, ◌<◌, ◌≡◌, refl, sym, ◌∙◌, ap,
}
use byte_select.Prelude.{arith, List, [], ◌∷◌, ◌++◌, length, take, drop, All, ok, ◌>>=◌, take_add}
use byte_select.Prelude.{
  drop_add, take_all, Result-cases, inl, inr, append_assoc, append-nil, ◌==◌, not, ◌||◌, Bool,
  false, true,
}
use byte_select.Prelude.{if◌then◌else◌, length-append, Bool-cases}
use byte_select.Stream.{BitWriter, new_writer}
use byte_select.Stream.Emits.{Emits, Emits-bind, Emits-along, Emits-return, Emits-run, Decoder}
use byte_select.Word.{load_little_endian, store_little_endian}
use byte_select.Word.Load.{IsByte, store-load, load_32-lt}
use byte_select.Cpack.{
  pack_word, pack_words, cpack_encode, unpack_word, unpack_words, cpack_decode, push_decoded,
}
use byte_select.Cpack.RoundTrip.{pack_word-Emits}

-- A dictionary that the coder can have: 16 entries of 32 bits at most.
IsDictionary : List ℕ → Type 0
IsDictionary d = (length d ≤ 16) × All (λ e. e < 2 ^ 32) d

All-drop_one : (d : List ℕ) → All (λ e. e < 2 ^ 32) d → All (λ e. e < 2 ^ 32) (drop 1 d)
All-drop_one [] h = tt
All-drop_one (e ∷ d) h = h.1

All-snoc :
    (d : List ℕ) (v : ℕ)
    → All (λ e. e < 2 ^ 32) d
    → v < 2 ^ 32
    → All (λ e. e < 2 ^ 32) (d ++ (v ∷ []))
All-snoc [] v h hv = (hv, tt)
All-snoc (e ∷ d) v (he, h) hv = (he, All-snoc d v h hv)

length-drop_one : (d : List ℕ) → length (drop 1 d) ≡ length d - 1
length-drop_one [] = refl
length-drop_one (e ∷ d) = omega arith

push_decoded-IsDictionary :
    (d : List ℕ) (v : ℕ) → IsDictionary d → v < 2 ^ 32 → IsDictionary (push_decoded d v)
unfolding push_decoded IsDictionary
push_decoded-IsDictionary d v (hd, hs) hv = elim (Bool-cases (length d == 16)) [
  | inl full ↦ rw full (
    omega (arith, length-append (drop 1 d) (v ∷ []), length-drop_one d),
    All-snoc (drop 1 d) v (All-drop_one d hs) hv,
  )
  | inr part ↦ rw part (ground (arith, length-append d (v ∷ [])), All-snoc d v hs hv)
]

after-IsDictionary :
    (d : List ℕ) (v : ℕ) (update : Bool)
    → IsDictionary d
    → v < 2 ^ 32
    → IsDictionary (if update then push_decoded d v else d)
after-IsDictionary d v true h hv = push_decoded-IsDictionary d v h hv
after-IsDictionary d v false h hv = h

-- The rounds of `unpack_words`, with the position where they end.
words : ℕ → List ℕ → List ℕ → Decoder (List ℕ)
words zero dictionary output bytes p = ok (output, p)
words (suc left) dictionary output bytes p =
    unpack_word dictionary bytes p >>= λ ((word, update), q).
    words left (if update then push_decoded dictionary word else dictionary)
      (output ++ store_little_endian word 4) bytes q

words-run :
    (bytes : List ℕ) (p : ℕ) (d output : List ℕ) (left : ℕ) (result : List ℕ) (q : ℕ)
    → words left d output bytes p ≡ ok (result, q)
    → unpack_words bytes p d output left ≡ ok result
unfolding words unpack_words
words-run bytes p d output zero result q h = ground arith
words-run bytes p d output (suc left) result q h = elim (Result-cases (unpack_word d bytes p)) [
  | inr (x, e) ↦ absurd (ground (arith, rw e at h))
  | inl (((word, update), t), e) ↦ rw e (
      words-run bytes t (if update then push_decoded d word else d)
        (output ++ store_little_endian word 4) left result q (rw e at h))
]

pack_words-Emits :
    (block : List ℕ) (w : BitWriter) (d output : List ℕ) (offset left : ℕ)
    → All IsByte block
    → offset + left * 4 ≤ length block
    → IsDictionary d
    → Emits w
        (pack_words w d block offset left)
        (words left d output)
        (output ++ take (left * 4) (drop offset block))
unfolding words pack_words IsDictionary
pack_words-Emits block w d output offset zero hb room hd =
    Emits-along (sym (append-nil output)) (Emits-return w output)
pack_words-Emits block w d output offset (suc left) hb room (hd, hs) =
    let bound = load_32-lt block offset hb (omega arith) in
    let small : load_little_endian block offset 4 % 2 ^ 32 ≡ load_little_endian block offset 4 =
      omega arith in
    let word = load_little_endian block offset 4 % 2 ^ 32 in
    let (update, code, same) = pack_word-Emits w d word (omega arith) hd hs in
    let four : suc left * 4 ≡ 4 + left * 4 = omega arith in
    let next = if update then push_decoded d word else d in
    let rest =
      pack_words-Emits block (pack_word w d word).0 next (output ++ store_little_endian word 4)
        (offset + 4) left hb (omega arith)
        (after-IsDictionary d word update (hd, hs) (omega arith)) in
    let whole : (output ++ store_little_endian word 4) ++ take (left * 4) (drop (offset + 4) block)
        ≡ output ++ take (suc left * 4) (drop offset block) =
      rw (small, store-load block offset 4 hb (omega arith) (omega arith), four, take_add, drop_add)
        (append_assoc output (take 4 (drop offset block)) _) in
    Emits-along whole (
      Emits-bind (word, update)
        (λ (x, u) bytes q.
          words left (if u then push_decoded d x else d) (output ++ store_little_endian x 4) bytes
            q)
        code (rw same rest))

-- For a block of bytes that is not empty and divides into words, `cpack_encode` returns bytes from
-- which `cpack_decode`, given the size of the block, returns the block.
pub cpack_decode-cpack_encode :
    (block : List ℕ)
    → All IsByte block
    → 0 < length block
    → length block % 4 ≡ 0
    → (encoded : List ℕ) × (cpack_encode block ≡ ok encoded)
      × (cpack_decode encoded (length block) ≡ ok block)
unfolding cpack_encode cpack_decode IsDictionary
cpack_decode-cpack_encode block hb some four =
    let fine : (length block == 0 || not (length block % 4 == 0)) ≡ false = ground arith in
    let n = length block / 4 in
    let w = pack_words new_writer [] block 0 n in
    let run =
      Emits-run w (words n [] []) (take (n * 4) block)
        (pack_words-Emits block new_writer [] [] 0 n hb (omega arith) (omega arith, tt)) in
    let all : take (n * 4) block ≡ block = take_all (n * 4) block (omega arith) in
    (
      w.bytes,
      rw fine refl,
      rw fine (words-run w.bytes 0 [] [] n (take (n * 4) block) w.bits run ∙ ap (λ t. ok t) all),
    )
