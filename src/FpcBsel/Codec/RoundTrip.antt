-- ===== src/FpcBsel/Codec/RoundTrip.antt =====
-- `decode_block` undoes `encode_block` (fpc-bsel/src/codec.cpp).
use byte_select.Prelude.{ℕ, ◌+◌, ◌≤◌, ◌≡◌, refl, sym, ◌∙◌, ap, arith}
use byte_select.Prelude.{Bool, Bool-cases, inl, inr, true, false, ltb, ◌==◌}
use byte_select.Prelude.{List, [], ◌∷◌, ◌++◌, length, All}
use byte_select.Prelude.{ok, length-append, append_assoc, append-nil}
use byte_select.Word.Load.{IsByte}
use byte_select.FpcBsel.Fpc.{fpc_decode, pack_tags}
use byte_select.FpcBsel.Fpc.Blocks.{fpc_decode-fpc_encode_block}
use byte_select.FpcBsel.Parts.{FpcParts}
use byte_select.FpcBsel.Parts.Whole.{IsParts, split_fpc-IsParts}
use byte_select.FpcBsel.Bsel.RoundTrip.{IsModel, bsel_encode-IsFound}
use byte_select.FpcBsel.Codec.{
  Model, EncodedBlock, choose, flags_of, decode_tags, decode_residual, raw_encoded, fpc_encoded,
}
use byte_select.FpcBsel.Codec.{combined, smaller_block, decode_parts, decode_block, encode_block}
use byte_select.FpcBsel.Codec.Segments.{
  slice-append, Decodes, decode_tags-choose, decode_residual-choose, read_flags,
}

-- The models of the tags, in blocks of 16, and of the residual, in blocks of 64.
pub record IsPair (model : Model) : Type 0 where
  pub prefix : IsModel model.prefix
  pub residual : IsModel model.residual
  pub prefix_size : model.prefix.block_size ≡ 16
  pub residual_size : model.residual.block_size ≡ 64

-- The segments behind the mode and the flags, decoded one after the other.
decode_parts-combined :
    (block : List ℕ) (model : Model) (parts : FpcParts) (p r : Bool) (prefix residual : List ℕ)
    → IsParts block parts
    → Decodes
        (2 ∷ flags_of p r ∷ [])
        (parts.regular_payload ++ residual)
        model
        decode_tags
        (p, prefix)
        parts.tags
    → Decodes
        ((2 ∷ flags_of p r ∷ prefix) ++ parts.regular_payload)
        []
        model
        (λ c e o m. decode_residual c e o m parts.tags)
        (r, residual)
        parts.residual_block
    → decode_block (combined parts (p, prefix) (r, residual)).bytes model ≡ ok block
unfolding decode_block decode_parts combined
decode_parts-combined block model parts p r prefix residual is tags rest =
    let flags = flags_of p r in
    let regular = parts.regular_payload in
    let encoded : List ℕ = 2 ∷ flags ∷ (prefix ++ (regular ++ residual)) in
    let (known, coded_tags, coded_residual) = read_flags p r in
    let short : ltb (length encoded) 2 ≡ false = ground arith in
    let behind : 2 + length prefix ≡ length (2 ∷ flags ∷ prefix) = omega arith in
    let joined : length (2 ∷ flags ∷ prefix) + length regular
        ≡ length ((2 ∷ flags ∷ prefix) ++ regular) =
      sym (length-append (2 ∷ flags ∷ prefix) regular) in
    let whole : ((2 ∷ flags ∷ prefix) ++ regular) ++ (residual ++ []) ≡ encoded =
      append_assoc (2 ∷ flags ∷ prefix) regular (residual ++ [])
      ∙ ap (λ (t : List ℕ). 2 ∷ flags ∷ (prefix ++ (regular ++ t))) (append-nil residual) in
    let last : decode_residual r encoded (length ((2 ∷ flags ∷ prefix) ++ regular)) model parts.tags
        ≡ ok (parts.residual_block, length ((2 ∷ flags ∷ prefix) ++ regular) + length residual) =
      rw whole at rest in
    let size : (length ((2 ∷ flags ∷ prefix) ++ regular) + length residual == length encoded)
        ≡ true =
      ground (
        arith,
        length-append (2 ∷ flags ∷ prefix) regular,
        length-append prefix (regular ++ residual),
        length-append regular residual,
      ) in
    rw
      (
        short,
        known,
        coded_tags,
        tags,
        is.regular,
        behind,
        slice-append (2 ∷ flags ∷ prefix) regular residual,
        coded_residual,
        joined,
        last,
        size,
      )
      (is.joins [])

-- An encoded block of at most 65 bytes that decodes to the block.
abbrev IsCoded : List ℕ → Model → EncodedBlock → Type 0
IsCoded block model e = (length e.bytes ≤ 65) × (decode_block e.bytes model ≡ ok block)

smaller_block-IsCoded :
    (block : List ℕ) (model : Model) (next best : EncodedBlock)
    → decode_block next.bytes model ≡ ok block
    → IsCoded block model best
    → IsCoded block model (smaller_block next best)
unfolding smaller_block
smaller_block-IsCoded block model next best h (small, k) =
    elim (Bool-cases (ltb (length next.bytes) (length best.bytes))) [
      | inl shorter ↦ rw shorter (ground arith, h)
      | inr longer ↦ rw longer (small, k)
    ]

raw_encoded-IsCoded :
    (block : List ℕ) (model : Model) → length block ≡ 64 → IsCoded block model (raw_encoded block)
unfolding raw_encoded decode_block
raw_encoded-IsCoded block model sized =
    let whole : (length (0 ∷ block) == 1 + 64) ≡ true = ground arith in (omega arith, rw whole refl)

decode_block-fpc_encoded :
    (block stream : List ℕ) (model : Model)
    → fpc_decode stream ≡ ok block
    → decode_block (fpc_encoded stream).bytes model ≡ ok block
unfolding fpc_encoded decode_block
decode_block-fpc_encoded block stream model h = h

-- For a model of sets of the sizes 16 and 64, with at most 65536 patterns in each, all of the set's
-- size, and a block of 64 bytes, `encode_block` returns an encoded block of at most 65 bytes, from
-- which `decode_block` returns the block.
pub decode_block-encode_block :
    (block : List ℕ) (model : Model)
    → IsPair model
    → All IsByte block
    → length block ≡ 64
    → (e : EncodedBlock) × (encode_block block model ≡ ok e)
      × (length e.bytes ≤ 65)
      × (decode_block e.bytes model ≡ ok block)
unfolding encode_block
decode_block-encode_block block model pair hb sized =
    let (stream, written, back) = fpc_decode-fpc_encode_block block hb sized in
    let (parts, split, is) = split_fpc-IsParts block hb sized in
    let (found, tagged, k) =
      bsel_encode-IsFound parts.tags model.prefix pair.prefix (is.count ∙ sym pair.prefix_size) in
    let (found', coded, k') =
      bsel_encode-IsFound parts.residual_block model.residual pair.residual
        (is.residual ∙ sym pair.residual_size) in
    let (p, prefix) = choose (pack_tags parts.tags) found in
    let (r, residual) = choose parts.raw_residual found' in
    let tags =
      decode_tags-choose (2 ∷ flags_of p r ∷ []) (parts.regular_payload ++ residual) model
        parts.tags found is.count is.small k in
    let rest =
      decode_residual-choose ((2 ∷ flags_of p r ∷ prefix) ++ parts.regular_payload) [] model block
        parts found' is k' in
    let fine : (length block == 64) ≡ true = ground arith in
    let best =
      smaller_block-IsCoded block model (fpc_encoded stream) (raw_encoded block)
        (decode_block-fpc_encoded block stream model back)
        (raw_encoded-IsCoded block model sized) in
    let (small, decoded) =
      smaller_block-IsCoded block model (combined parts (p, prefix) (r, residual)) _
        (decode_parts-combined block model parts p r prefix residual is tags rest) best in
    (
      smaller_block (combined parts (p, prefix) (r, residual))
          (smaller_block (fpc_encoded stream) (raw_encoded block)),
      rw (fine, written, split, tagged, coded) refl,
      small,
      decoded,
    )
