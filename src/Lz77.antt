-- ===== src/Lz77.antt =====
-- The LZ77-lite coder (src/baseline.cpp): the search `find_lz_match`, `lz77_lite_encode` and
-- `lz77_lite_decode`. The outer loops run on fuel; each of their rounds adds a byte at least, so the
-- number of bytes is enough.
pub mod Match
pub mod Copy
pub mod Tokens
pub mod RoundTrip
mod Examples
use byte_select.Prelude.{
  ℕ, zero, suc, ◌+◌, ◌-◌, Bool, true, false, ◌&&◌, List, length, get_or, if◌then◌else◌, ◌==◌, ltb,
}
use byte_select.Prelude.{
  ◌%◌, ◌^◌, min, bit_and, bit_or, not, ◌||◌, [], ◌∷◌, ◌++◌, leb, Result, ok, ◌>>=◌, ◌>>◌, throw_if,
}
use byte_select.Prelude.{invalid_argument, runtime_error}

pub record LzMatch : Type 0 where
  pub offset : ℕ
  pub length : ℕ

-- The `while` loop: `length` grows while the bytes are the same, for `left` more rounds at most.
unfoldable pub match_loop : List ℕ → ℕ → ℕ → ℕ → ℕ → ℕ
match_loop block candidate position l zero = l
match_loop block candidate position l (suc left) =
    let next = match_loop block candidate position (l + 1) left in
    if ltb (position + l) (length block)
      && get_or block (candidate + l) 0 == get_or block (position + l) 0
    then next
    else l

-- The loop over the candidates, from `candidate` on, `left` of them.
unfoldable pub candidate_loop : List ℕ → ℕ → ℕ → LzMatch → ℕ → ℕ → LzMatch
candidate_loop block position max_length best candidate zero = best
candidate_loop block position max_length best candidate (suc left) =
    let l = match_loop block candidate position 0 max_length in
    candidate_loop block position max_length
      (if ltb best.length l then record { offset = position - candidate; length = l } else best)
      (candidate + 1) left

unfoldable pub find_lz_match : List ℕ → ℕ → ℕ → ℕ → LzMatch
find_lz_match block position window max_length =
    let begin = if ltb window position then position - window else 0 in
    candidate_loop block position max_length (record { offset = 0; length = 0 }) begin
      (position - begin)

abbrev pub k_window : ℕ
k_window = 255

abbrev pub k_max_length : ℕ
k_max_length = 255

abbrev pub k_min_match : ℕ
k_min_match = 3

-- A flag byte, the bytes of its tokens and the position in the block behind them.
pub record Group : Type 0 where
  pub flags : ℕ
  pub body : List ℕ
  pub position : ℕ

-- The loop over the tokens of a flag byte, from `token` on, `left` of them.
unfoldable pub encode_tokens : List ℕ → Group → ℕ → ℕ → Group
encode_tokens block g token zero = g
encode_tokens block g token (suc left) =
    if ltb g.position (length block)
    then (let match = find_lz_match block g.position k_window k_max_length in
        encode_tokens block
          (if leb k_min_match match.length
            then record {
              flags = bit_or g.flags (2 ^ token % 2 ^ 8);
              body = g.body ++ ((match.offset % 2 ^ 8) ∷ (match.length % 2 ^ 8) ∷ []);
              position = g.position + match.length;
            }
            else record {
              flags = g.flags;
              body = g.body ++ (get_or block g.position 0 ∷ []);
              position = g.position + 1;
            })
          (token + 1) left)
    else g

abbrev pub next_group : List ℕ → ℕ → Group
next_group block position =
    encode_tokens block (record { flags = 0; body = []; position = position }) 0 8

-- The outer loop.
unfoldable pub encode_groups : List ℕ → List ℕ → ℕ → ℕ → List ℕ
encode_groups block output position zero = output
encode_groups block output position (suc fuel) =
    if ltb position (length block)
    then (let g = next_group block position in
        encode_groups block (output ++ (g.flags ∷ g.body)) g.position fuel)
    else output

unfoldable pub lz77_lite_encode : List ℕ → Result (List ℕ)
lz77_lite_encode block = do
  throw_if (length block == 0) (invalid_argument "LZ77-lite requires a non-empty block")
  ok (encode_groups block [] 0 (length block))

-- `output.push_back(output[output.size() - offset])`, `n` times.
unfoldable pub copy_back : List ℕ → ℕ → ℕ → List ℕ
copy_back output offset zero = output
copy_back output offset (suc n) =
    copy_back (output ++ (get_or output (length output - offset) 0 ∷ [])) offset n

-- A token, by its flag: the position in the input behind it, and the output.
unfoldable pub decode_token : List ℕ → Bool → ℕ → List ℕ → ℕ → Result (ℕ × List ℕ)
decode_token encoded false input output output_size =
    throw_if (leb (length encoded) input) (runtime_error "truncated LZ77-lite literal")
    >> ok (input + 1, output ++ (get_or encoded input 0 ∷ []))
decode_token encoded true input output output_size =
    let offset = get_or encoded input 0 in
    let count = get_or encoded (input + 1) 0 in
    throw_if (leb (length encoded) (input + 1)) (runtime_error "truncated LZ77-lite match")
    >> (throw_if
          (offset == 0
            || (ltb (length output) offset
                || (ltb count k_min_match || ltb output_size (length output + count))))
          (runtime_error "invalid LZ77-lite match")
        >> ok (input + 2, copy_back output offset count))

unfoldable pub decode_tokens : List ℕ → ℕ → ℕ → List ℕ → ℕ → ℕ → ℕ → Result (ℕ × List ℕ)
decode_tokens encoded flags input output output_size token zero = ok (input, output)
decode_tokens encoded flags input output output_size token (suc left) =
    if ltb (length output) output_size
    then (decode_token encoded (not (bit_and flags (2 ^ token) == 0)) input output output_size
        >>= λ (next, grown). decode_tokens encoded flags next grown output_size (token + 1) left)
    else ok (input, output)

unfoldable pub decode_groups : List ℕ → ℕ → List ℕ → ℕ → ℕ → Result (List ℕ)
decode_groups encoded input output output_size zero = ok output
decode_groups encoded input output output_size (suc fuel) =
    if ltb (length output) output_size
    then (throw_if (leb (length encoded) input) (runtime_error "truncated LZ77-lite flags")
        >> (decode_tokens encoded (get_or encoded input 0) (input + 1) output output_size 0 8
            >>= λ (next, grown). decode_groups encoded next grown output_size fuel))
    else ok output

unfoldable pub lz77_lite_decode : List ℕ → ℕ → Result (List ℕ)
lz77_lite_decode encoded output_size = decode_groups encoded 0 [] output_size output_size

unfoldable pub lz77_lite_encoded_size : List ℕ → Result ℕ
lz77_lite_encoded_size block = do
  encoded ← lz77_lite_encode block
  ok (min (length encoded) (length block))
