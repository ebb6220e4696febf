-- ===== src/FpcBsel/Codec/Segments.antt =====
-- The segments of an encoded block of fpc-bsel/src/codec.cpp, read where they stand.
use byte_select.Prelude.{ℕ, ◌+◌, ◌-◌, ◌%◌, ◌/◌, ◌^◌, ◌<◌, ◌≡◌, refl, sym, ◌∙◌, ap, arith}
use byte_select.Prelude.{Bool, Bool-cases, inl, inr, true, false, bit_and, not, ltb, leb, ◌==◌}
use byte_select.Prelude.{
  List, [], ◌∷◌, ◌++◌, length, take, get_or, replicate, All, Option, none, some,
}
use byte_select.Prelude.{Result, ok, length-append, get_or-append_right}
use byte_select.Prelude.Slices.{take-append, take-drop-append, get_or-append_behind}
use byte_select.FpcBsel.Fpc.{pack_tags}
use byte_select.FpcBsel.Parts.{FpcParts}
use byte_select.FpcBsel.Parts.Tags.{unpack_tags-pack_tags}
use byte_select.FpcBsel.Parts.Whole.{IsParts}
use byte_select.FpcBsel.Bsel.{BselModel}
use byte_select.FpcBsel.Bsel.RoundTrip.{IsStream, IsFound, u16_bytes, bsel_decode-IsStream}
use byte_select.FpcBsel.Codec.{
  Model, slice, bsel_stream_size, choose, flags_of, check_tags, decode_tags, decode_residual,
}

pub slice-append :
    (before part after : List ℕ)
    → slice (before ++ (part ++ after)) (length before) (length part)
      ≡ ok (part, length before + length part)
unfolding slice
slice-append before part after =
    let inside : ltb (length (before ++ (part ++ after))) (length before + length part) ≡ false =
      ground (arith, length-append before (part ++ after), length-append part after) in
    rw inside (
      ap (λ (t : List ℕ). ok (t, length before + length part)) (take-drop-append before part after))

bsel_stream_size-IsStream :
    (block before e after : List ℕ) (m : BselModel)
    → IsStream block m e
    → bsel_stream_size (before ++ (e ++ after)) (length before) m ≡ ok (length e)
unfolding bsel_stream_size
bsel_stream_size-IsStream block before e after m s =
    let low = s.id % 2 ^ 8 in
    let high = s.id / 2 ^ 8 % 2 ^ 8 in
    let whole : List ℕ = before ++ (low ∷ high ∷ (s.dictionary ++ after)) in
    let first : get_or whole (length before) 0 ≡ low =
      get_or-append_right before low (high ∷ (s.dictionary ++ after)) 0 in
    let second : get_or whole (length before + 1) 0 ≡ high =
      get_or-append_behind before (low ∷ high ∷ (s.dictionary ++ after)) 1 0 in
    let room : ltb (length whole) (length before + 2) ≡ false =
      ground (arith, length-append before (low ∷ high ∷ (s.dictionary ++ after))) in
    let known : leb (length m.patterns) s.id ≡ false = ground (arith, s.inside) in
    rw (s.stream, room, first, second, u16_bytes s.id s.two_bytes, known)
      (ap (λ (n : ℕ). ok n) (omega (arith, s.size)))

check_tags-small : (tags : List ℕ) → All (λ t. t < 8) tags → check_tags tags ≡ ok tt
unfolding check_tags
check_tags-small [] h = refl
check_tags-small (t ∷ tags) (ht, h) =
    let fine : ltb 7 t ≡ false = ground arith in rw fine (check_tags-small tags h)

module _ (before after : List ℕ) (model : Model) where
  -- A segment that was chosen, behind `before`, and what is decoded there.
  abbrev pub Decodes {ℓ} :
      {A : Type ℓ} → (Bool → List ℕ → ℕ → Model → Result (A × ℕ)) → Bool × List ℕ → A → Type ℓ
  Decodes decode (coded, segment) a =
      decode coded (before ++ (segment ++ after)) (length before) model
      ≡ ok (a, length before + length segment)

  Decodes-choose {ℓ} :
      {A : Type ℓ} (decode : Bool → List ℕ → ℕ → Model → Result (A × ℕ)) (segment : List ℕ)
      (found : Option (List ℕ)) (a : A)
      → Decodes decode (false, segment) a
      → ((e : List ℕ) → found ≡ some e → Decodes decode (true, e) a)
      → Decodes decode (choose segment found) a
  unfolding choose
  Decodes-choose decode segment none a plain coded = plain
  Decodes-choose decode segment (some e) a plain coded =
      elim (Bool-cases (ltb (length e) (length segment))) [
        | inl shorter ↦ rw shorter (coded e refl)
        | inr longer ↦ rw longer plain
      ]

  pub decode_tags-choose :
      (tags : List ℕ) (found : Option (List ℕ))
      → length tags ≡ 16
      → All (λ t. t < 8) tags
      → IsFound tags model.prefix found
      → Decodes decode_tags (choose (pack_tags tags) found) tags
  unfolding decode_tags
  decode_tags-choose tags found sixteen small k =
      let (six, back) = unpack_tags-pack_tags tags sixteen small in
      let all : take 16 (tags ++ replicate 16 0) ≡ tags =
        ap (λ (n : ℕ). take n (tags ++ replicate 16 0)) (sym sixteen)
        ∙ take-append tags (replicate 16 0) in
      Decodes-choose decode_tags (pack_tags tags) found tags
        (rw (rw six at (slice-append before (pack_tags tags) after), back)
          (ap (λ (n : ℕ). ok (tags, length before + n)) (sym six)))
        (λ e hit.
          let s : IsStream tags model.prefix e = rw hit at k in
          rw
            (
              bsel_stream_size-IsStream tags before e after model.prefix s,
              slice-append before e after,
              bsel_decode-IsStream tags model.prefix e s,
              all,
              check_tags-small tags small,
            )
            refl)

  pub decode_residual-choose :
      (block : List ℕ) (parts : FpcParts) (found : Option (List ℕ))
      → IsParts block parts
      → IsFound parts.residual_block model.residual found
      → Decodes
          (λ c e o m. decode_residual c e o m parts.tags)
          (choose parts.raw_residual found)
          parts.residual_block
  unfolding decode_residual
  decode_residual-choose block parts found p k =
      Decodes-choose (λ c e o m. decode_residual c e o m parts.tags) parts.raw_residual found
        parts.residual_block
        (rw (p.raw, slice-append before parts.raw_residual after, p.spreads) refl)
        (λ e hit.
          let s : IsStream parts.residual_block model.residual e = rw hit at k in
          rw
            (
              bsel_stream_size-IsStream parts.residual_block before e after model.residual s,
              slice-append before e after,
              bsel_decode-IsStream parts.residual_block model.residual e s,
            )
            refl)

-- The flags, read back.
pub read_flags :
    (p r : Bool)
    → ((bit_and (flags_of p r) (2 ^ 32 - 1 - 3) == 0) ≡ true)
      × (not (bit_and (flags_of p r) 1 == 0) ≡ p)
      × (not (bit_and (flags_of p r) 2 == 0) ≡ r)
read_flags true true = (refl, refl, refl)
read_flags true false = (refl, refl, refl)
read_flags false true = (refl, refl, refl)
read_flags false false = (refl, refl, refl)
