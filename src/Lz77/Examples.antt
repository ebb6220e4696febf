-- ===== src/Lz77/Examples.antt =====
-- Runs of the LZ77-lite coder.
use byte_select.Prelude.{
  ℕ, ◌-◌, ◌<◌, ◌≤◌, ◌≡◌, refl, arith, List, [], ◌∷◌, length, ok, err, runtime_error,
}
use byte_select.Lz77.{
  lz77_lite_encode, lz77_lite_decode, encode_groups, encode_tokens, candidate_loop, decode_groups,
  decode_tokens, decode_token,
}
use byte_select.Lz77.RoundTrip.{lz77_lite_decode-lz77_lite_encode}
use byte_select.Lz77.{find_lz_match, match_loop}
use byte_select.Lz77.Match.{IsMatch, Matches, find_lz_match_lem}

abbrev block : List ℕ
block = 1 ∷ 2 ∷ 3 ∷ 1 ∷ 2 ∷ 3 ∷ 1 ∷ 2 ∷ 9 ∷ []

-- Five bytes, three behind: the match runs over its own start.
match_offset : (find_lz_match block 3 255 255).offset ≡ 3
unfolding find_lz_match byte_select.Lz77.candidate_loop match_loop
match_offset = refl

find_lz_match_lem_example :
    IsMatch block (3 - 255) 3 255 (find_lz_match block 3 255 255)
    × ((k l : ℕ)
        → 3 - 255 ≤ k
        → k < 3
        → l ≤ 255
        → Matches block k 3 l
        → l ≤ (find_lz_match block 3 255 255).length)
find_lz_match_lem_example = find_lz_match_lem block 3 255 255

-- Three literals, a match of five bytes, and a literal.
encoded_block : lz77_lite_encode block ≡ ok (8 ∷ 1 ∷ 2 ∷ 3 ∷ 3 ∷ 5 ∷ 9 ∷ [])
unfolding lz77_lite_encode encode_groups encode_tokens find_lz_match candidate_loop match_loop
encoded_block = refl

-- A match that reaches before the first byte.
invalid_offset :
    lz77_lite_decode (2 ∷ 1 ∷ 2 ∷ 3 ∷ []) 4 ≡ err (runtime_error "invalid LZ77-lite match")
unfolding lz77_lite_decode decode_groups decode_tokens decode_token
invalid_offset = refl

lz77_lite_decode-lz77_lite_encode_example :
    (encoded : List ℕ) × (lz77_lite_encode block ≡ ok encoded)
    × (lz77_lite_decode encoded (length block) ≡ ok block)
lz77_lite_decode-lz77_lite_encode_example = lz77_lite_decode-lz77_lite_encode block (omega arith)
