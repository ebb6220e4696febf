-- ===== src/Lz77/RoundTrip.antt =====
-- `lz77_lite_decode` undoes `lz77_lite_encode` (src/baseline.cpp).
use byte_select.Prelude.{ℕ, zero, suc, ◌+◌, ◌^◌, ◌≤◌, ◌<◌, ◌≡◌, sym, ◌∙◌, ap, arith}
use byte_select.Prelude.{Bool-cases, inl, inr, true, false, ltb, leb, ◌==◌}
use byte_select.Prelude.{List, [], ◌∷◌, ◌++◌, length, take, ok}
use byte_select.Prelude.{append_assoc, append-nil, length-append, get_or-append_right, take_all}
use native.Mathlib.Nat.{zero-div}
use byte_select.Lz77.{
  next_group, encode_groups, lz77_lite_encode, decode_tokens, decode_groups, lz77_lite_decode,
}
use byte_select.Lz77.Copy.{length-take}
use byte_select.Lz77.Tokens.{Continues, encode_tokens-Continues}

module _ (block : List ℕ) where
  -- The bytes that the groups from `position` on append, and what is decoded there.
  record Remains (position fuel : ℕ) : Type 0 where
    rest : List ℕ
    encodes : (output : List ℕ) → encode_groups block output position fuel ≡ output ++ rest
    decodes :
        (pre : List ℕ)
        → decode_groups (pre ++ rest) (length pre) (take position block) (length block) fuel
          ≡ ok block

  at_end :
      (position fuel : ℕ)
      → position ≤ length block
      → length block ≤ position
      → Remains position fuel
  unfolding encode_groups decode_groups
  at_end position zero h k = record {
    rest = [];
    encodes = λ output. sym (append-nil output);
    decodes = λ pre. ap (λ (t : List ℕ). ok t) (take_all position block k);
  }
  at_end position (suc fuel) h k =
      let over : ltb position (length block) ≡ false = ground arith in
      let size = length-take position block h in
      record {
        rest = [];
        encodes = λ output. rw over (sym (append-nil output));
        decodes = λ pre. rw (size, over) (ap (λ (t : List ℕ). ok t) (take_all position block k));
      }

  group :
      (position fuel : ℕ)
      → position < length block
      → Continues block
          (record { flags = 0; body = []; position = position })
          (next_group block position)
          0
          8
      → Remains (next_group block position).position fuel
      → Remains position (suc fuel)
  unfolding encode_groups decode_groups
  group position fuel room c r =
      let g = next_group block position in
      let more : ltb position (length block) ≡ true = ground arith in
      let size = length-take position block (omega arith) in
      record {
        rest = g.flags ∷ (c.added ++ r.rest);
        encodes = λ output.
            rw (more, r.encodes (output ++ (g.flags ∷ g.body)))
              (append_assoc output (g.flags ∷ g.body) r.rest
                ∙ ap (λ (t : List ℕ). output ++ (g.flags ∷ (t ++ r.rest))) c.body);
        decodes = λ pre.
            let encoded : List ℕ = pre ++ (g.flags ∷ (c.added ++ r.rest)) in
            let inside : leb (length encoded) (length pre) ≡ false =
              ground (arith, length-append pre (g.flags ∷ (c.added ++ r.rest))) in
            let flags = get_or-append_right pre g.flags (c.added ++ r.rest) 0 in
            let tokens : decode_tokens encoded g.flags (length pre + 1) (take position block)
                  (length block) 0 8
                ≡ ok (length pre + 1 + length c.added, take g.position block) =
              rw
                (
                  append_assoc pre (g.flags ∷ []) (c.added ++ r.rest),
                  length-append pre (g.flags ∷ []),
                )
                at (c.decodes (pre ++ (g.flags ∷ [])) r.rest) in
            let behind : length (pre ++ (g.flags ∷ c.added)) ≡ length pre + 1 + length c.added =
              omega (arith, length-append pre (g.flags ∷ c.added)) in
            let groups : decode_groups encoded (length pre + 1 + length c.added)
                  (take g.position block) (length block) fuel
                ≡ ok block =
              rw (append_assoc pre (g.flags ∷ c.added) r.rest, behind) at
                (r.decodes (pre ++ (g.flags ∷ c.added))) in
            rw (size, more, inside, flags, tokens) groups;
      }

  encode_groups-Remains :
      (position fuel : ℕ)
      → position ≤ length block
      → length block ≤ position + fuel
      → Remains position fuel
  encode_groups-Remains position zero h k = at_end position zero h (omega arith)
  encode_groups-Remains position (suc fuel) h k = elim (Bool-cases (ltb position (length block))) [
    | inr over ↦ at_end position (suc fuel) h (ground arith)
    | inl more ↦
        let room : position < length block = ground arith in
        let c =
          encode_tokens-Continues block (record { flags = 0; body = []; position = position }) 0 8
            (omega arith) h (λ k hk. omega (arith, zero-div (2 ^ k))) in
        let g = next_group block position in
        let further : position < g.position = c.moves (omega arith) room in
        group position fuel room c (encode_groups-Remains g.position fuel c.inside (omega arith))
  ]

-- For a block that is not empty, `lz77_lite_encode` returns bytes from which `lz77_lite_decode`,
-- given the length of the block, returns the block; this includes matches that overlap the bytes
-- they make.
pub lz77_lite_decode-lz77_lite_encode :
    (block : List ℕ)
    → 0 < length block
    → (encoded : List ℕ) × (lz77_lite_encode block ≡ ok encoded)
      × (lz77_lite_decode encoded (length block) ≡ ok block)
unfolding lz77_lite_encode lz77_lite_decode
lz77_lite_decode-lz77_lite_encode block some =
    let r = encode_groups-Remains block 0 (length block) (omega arith) (omega arith) in
    let full : (length block == 0) ≡ false = ground arith in
    (r.rest, rw full (ap (λ (t : List ℕ). ok t) (r.encodes [])), r.decodes [])
