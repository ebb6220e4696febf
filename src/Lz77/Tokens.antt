-- ===== src/Lz77/Tokens.antt =====
-- The tokens of one flag byte (src/baseline.cpp), encoded and decoded.
use byte_select.Prelude.{
  ℕ, zero, suc, ◌+◌, ◌-◌, ◌/◌, ◌%◌, ◌^◌, bit_and, bit_or, ◌≤◌, ◌<◌, ◌≡◌, refl, sym, ◌∙◌, ap, arith,
}
use byte_select.Prelude.{Bool, Bool-cases, inl, inr, true, false, not, ltb, leb, ◌==◌, ◌||◌}
use byte_select.Prelude.{List, [], ◌∷◌, ◌++◌, length, take, get_or, ok}
use byte_select.Prelude.{append_assoc, append-nil, length-append, get_or-append_right}
use byte_select.Prelude.Bits.{and_bit, or_bit, power_bit}
use byte_select.Prelude.Slices.{get_or-append_behind}
use native.Mathlib.Nat.{one-le-pow, pow-le-pow_right, add-zero}
use byte_select.Lz77.{Group, find_lz_match, encode_tokens, decode_token, decode_tokens}
use byte_select.Lz77.Match.{Matches, find_lz_match_lem}
use byte_select.Lz77.Copy.{length-take, take_next, copy_back-Matches}

-- The test of a flag.
flag_set : (k x : ℕ) → x / 2 ^ k % 2 ≡ 1 → not (bit_and x (2 ^ k) == 0) ≡ true
flag_set k x h =
    let some : 1 ≤ 2 ^ k = one-le-pow k 2 (omega arith) in rw (and_bit k x, h) (ground arith)

flag_clear : (k x : ℕ) → x / 2 ^ k % 2 ≡ 0 → not (bit_and x (2 ^ k) == 0) ≡ false
flag_clear k x h = rw (and_bit k x, h) (ground arith)

-- Setting a flag.
set_same : (k x : ℕ) → bit_or x (2 ^ k) / 2 ^ k % 2 ≡ 1
set_same k x = or_bit k x (2 ^ k) ∙ rw (power_bit k k) (ground arith)

set_other : (j k x : ℕ) → j < k → bit_or x (2 ^ j) / 2 ^ k % 2 ≡ x / 2 ^ k % 2
set_other j k x h = or_bit k x (2 ^ j) ∙ rw (power_bit j k) (ground arith)

set_below : (j k x : ℕ) → k < j → bit_or x (2 ^ j) / 2 ^ k % 2 ≡ x / 2 ^ k % 2
set_below j k x h = or_bit k x (2 ^ j) ∙ rw (power_bit j k) (ground arith)

module _ (block : List ℕ) where
  -- A match of three bytes and more, in the input behind `pre`.
  match_token :
      (pre post : List ℕ) (offset position n : ℕ)
      → 0 < offset
      → offset ≤ position
      → 3 ≤ n
      → position + n ≤ length block
      → Matches block (position - offset) position n
      → decode_token
          (pre ++ (offset ∷ n ∷ post))
          true
          (length pre)
          (take position block)
          (length block)
        ≡ ok (length pre + 2, take (position + n) block)
  unfolding decode_token
  match_token pre post offset position n h₀ h₁ three room m =
      let first = get_or-append_right pre offset (n ∷ post) 0 in
      let second = get_or-append_behind pre (offset ∷ n ∷ post) 1 0 in
      let size = length-take position block (omega arith) in
      let inside : leb (length (pre ++ (offset ∷ n ∷ post))) (length pre + 1) ≡ false =
        ground (arith, length-append pre (offset ∷ n ∷ post)) in
      let valid : (offset == 0
            || (ltb position offset || (ltb n 3 || ltb (length block) (position + n))))
          ≡ false =
        ground arith in
      rw (inside, first, second, size, valid)
        (ap (λ (t : List ℕ). ok (length pre + 2, t))
          (copy_back-Matches block offset position n h₀ h₁ room m))

  literal_token :
      (pre post : List ℕ) (position : ℕ)
      → position < length block
      → decode_token
          (pre ++ (get_or block position 0 ∷ post))
          false
          (length pre)
          (take position block)
          (length block)
        ≡ ok (length pre + 1, take (position + 1) block)
  unfolding decode_token
  literal_token pre post position room =
      let first = get_or-append_right pre (get_or block position 0) post 0 in
      let inside : leb (length (pre ++ (get_or block position 0 ∷ post))) (length pre) ≡ false =
        ground (arith, length-append pre (get_or block position 0 ∷ post)) in
      let one : suc position ≡ position + 1 = omega arith in
      rw (inside, first)
        (ap (λ (t : List ℕ). ok (length pre + 1, t))
          (take_next position block room ∙ ap (λ (k : ℕ). take k block) one))

-- A group that went on from `g` at `token`: the flags below are kept, and the bytes that were added
-- decode, wherever they stand, to the bytes of the block up to the new position.
pub record Continues (block : List ℕ) (g h : Group) (token left : ℕ) : Type 0 where
  pub added : List ℕ
  pub body : h.body ≡ g.body ++ added
  pub kept : (k : ℕ) → k < token → h.flags / 2 ^ k % 2 ≡ g.flags / 2 ^ k % 2
  pub forward : g.position ≤ h.position
  pub moves : 0 < left → g.position < length block → g.position < h.position
  pub inside : h.position ≤ length block
  pub decodes :
      (pre post : List ℕ)
      → decode_tokens
          (pre ++ (added ++ post))
          h.flags
          (length pre)
          (take g.position block)
          (length block)
          token
          left
        ≡ ok (length pre + length added, take h.position block)

module _ (block : List ℕ) where
  -- No token.
  stays :
      (g : Group) (token left : ℕ)
      → g.position ≤ length block
      → (0 < left → length block ≤ g.position)
      → Continues block g g token left
  unfolding decode_tokens
  stays g token zero room end = record {
    added = [];
    body = sym (append-nil g.body);
    kept = λ k hk. refl;
    forward = omega arith;
    moves = λ some more. absurd (omega arith);
    inside = room;
    decodes =
        λ pre post. ap (λ (n : ℕ). ok (n, take g.position block)) (sym (add-zero (length pre)));
  }
  stays g token (suc left) room end =
      let behind = end (omega arith) in
      let size = length-take g.position block room in
      let over : ltb g.position (length block) ≡ false = ground arith in
      record {
        added = [];
        body = sym (append-nil g.body);
        kept = λ k hk. refl;
        forward = omega arith;
        moves = λ some more. absurd (omega arith);
        inside = room;
        decodes = λ pre post.
            rw (size, over)
              (ap (λ (n : ℕ). ok (n, take g.position block)) (sym (add-zero (length pre))));
      }

  -- A token of the bytes `bytes`, and the tokens behind it.
  Continues-token :
      (g g' h : Group) (token left : ℕ) (bytes : List ℕ) (flag : Bool)
      → g.position < g'.position
      → g.position < length block
      → g'.body ≡ g.body ++ bytes
      → ((k : ℕ) → k < token → g'.flags / 2 ^ k % 2 ≡ g.flags / 2 ^ k % 2)
      → not (bit_and h.flags (2 ^ token) == 0) ≡ flag
      → ((pre post : List ℕ)
          → decode_token
              (pre ++ (bytes ++ post))
              flag
              (length pre)
              (take g.position block)
              (length block)
            ≡ ok (length pre + length bytes, take g'.position block))
      → Continues block g' h (token + 1) left
      → Continues block g h token (suc left)
  unfolding decode_tokens
  Continues-token g g' h token left bytes flag moved room body kept test decoded c =
      let size = length-take g.position block (omega arith) in
      let more : ltb g.position (length block) ≡ true = ground arith in
      record {
        added = bytes ++ c.added;
        body = c.body ∙ rw body (append_assoc g.body bytes c.added);
        kept = λ k hk. c.kept k (omega arith) ∙ kept k hk;
        forward = omega (arith, c.forward);
        moves = λ some more. omega (arith, c.forward);
        inside = c.inside;
        decodes = λ pre post.
            let next = c.decodes (pre ++ bytes) post in
            let sum : length pre + length bytes + length c.added
                ≡ length pre + length (bytes ++ c.added) =
              omega (arith, length-append bytes c.added) in
            let tail : decode_tokens (pre ++ (bytes ++ (c.added ++ post))) h.flags
                  (length pre + length bytes) (take g'.position block) (length block) (token + 1)
                  left
                ≡ ok (length pre + length (bytes ++ c.added), take h.position block) =
              rw (append_assoc pre bytes (c.added ++ post), length-append pre bytes) at next
              ∙ ap (λ (n : ℕ). ok (n, take h.position block)) sum in
            let whole : decode_tokens (pre ++ (bytes ++ (c.added ++ post))) h.flags (length pre)
                  (take g.position block) (length block) token (suc left)
                ≡ ok (length pre + length (bytes ++ c.added), take h.position block) =
              rw (size, more, test, decoded pre (c.added ++ post)) tail in
            ap
              (λ (t : List ℕ).
                decode_tokens (pre ++ t) h.flags (length pre) (take g.position block) (length block)
                  token (suc left))
              (append_assoc bytes c.added post)
            ∙ whole;
      }

  pub encode_tokens-Continues :
      (g : Group) (token left : ℕ)
      → token + left ≤ 8
      → g.position ≤ length block
      → ((k : ℕ) → token ≤ k → g.flags / 2 ^ k % 2 ≡ 0)
      → Continues block g (encode_tokens block g token left) token left
  unfolding encode_tokens
  encode_tokens-Continues g token zero eight room clear =
      stays g token zero room (λ h. absurd (omega arith))
  encode_tokens-Continues g token (suc left) eight room clear =
      let m = find_lz_match block g.position 255 255 in
      let (is, longest) = find_lz_match_lem block g.position 255 255 in
      elim (Bool-cases (ltb g.position (length block))) [
        | inr over ↦ rw over (stays g token (suc left) room (λ h. ground arith))
        | inl more ↦ rw more (elim (Bool-cases (leb 3 m.length)) [
          | inr short ↦ rw short (
              let g' : Group = record {
                flags = g.flags;
                body = g.body ++ (get_or block g.position 0 ∷ []);
                position = g.position + 1;
              } in
              let c =
                encode_tokens-Continues g' (token + 1) left (omega arith) (ground arith)
                  (λ k hk. clear k (omega arith)) in
              Continues-token g g' (encode_tokens block g' (token + 1) left) token left
                (get_or block g.position 0 ∷ []) false (omega arith) (ground arith) refl
                (λ k hk. refl)
                (flag_clear token _ (c.kept token (omega arith) ∙ clear token (omega arith)))
                (λ pre post. literal_token block pre post g.position (ground arith)) c)
          | inl long ↦ rw long (
              let three : 3 ≤ m.length = ground arith in
              let back = is.back in
              let nonzero : 0 < m.offset = is.some (omega arith) in
              let fits : g.position + m.length ≤ length block =
                omega (arith, (is.bytes (m.length - 1) (omega arith)).0) in
              let byte : m.offset % 2 ^ 8 ≡ m.offset = omega arith in
              let size : m.length % 2 ^ 8 ≡ m.length = omega (arith, is.short) in
              let cap : 2 ^ token ≤ 2 ^ 7 = pow-le-pow_right (omega arith) {j = 7} (omega arith) in
              let flag : 2 ^ token % 2 ^ 8 ≡ 2 ^ token = omega (arith, cap) in
              let g' : Group = record {
                flags = bit_or g.flags (2 ^ token % 2 ^ 8);
                body = g.body ++ ((m.offset % 2 ^ 8) ∷ (m.length % 2 ^ 8) ∷ []);
                position = g.position + m.length;
              } in
              let c = encode_tokens-Continues g' (token + 1) left (omega arith) fits (λ k hk.
                rw flag (set_other token k g.flags (omega arith) ∙ clear k (omega arith))) in
              Continues-token g g' (encode_tokens block g' (token + 1) left) token left
                ((m.offset % 2 ^ 8) ∷ (m.length % 2 ^ 8) ∷ []) true (omega arith) (ground arith)
                refl (λ k hk. rw flag (set_below token k g.flags hk))
                (flag_set token _ (c.kept token (omega arith) ∙ rw flag (set_same token g.flags)))
                (λ pre post.
                  rw (byte, size)
                    (match_token block pre post m.offset g.position m.length nonzero (omega arith)
                      three fits is.bytes))
                c)
        ])
      ]
