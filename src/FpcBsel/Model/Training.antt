-- ===== src/FpcBsel/Model/Training.antt =====
-- The models that `train_model` makes (fpc-bsel/src/model.cpp) are those that the codec and the files take.
use byte_select.Prelude.{ℕ, ◌+◌, ◌≤◌, ◌<◌, ◌≡◌, refl, arith}
use byte_select.Prelude.{false, ◌==◌, List, [], ◌∷◌, ◌++◌, length, All, ok}
use byte_select.Prelude.{length-append}
use byte_select.Prelude.Slices.{All-append}
use byte_select.Word.Load.{IsByte}
use byte_select.FpcBsel.Parts.Whole.{split_fpc-IsParts}
use byte_select.FpcBsel.Bsel.{Pattern, BselModel}
use byte_select.FpcBsel.Bsel.Trained.{
  IsTrained, IsPatternOf, train_bsel-IsTrained, IsTrained-IsModel,
}
use byte_select.FpcBsel.Codec.{Model, EncodedBlock, encode_block, decode_block}
use byte_select.FpcBsel.Codec.RoundTrip.{IsPair, decode_block-encode_block}
use byte_select.FpcBsel.Model.{split_all, train_model, save_model, load_model}
use byte_select.FpcBsel.Model.Files.{IsStored, Sized, load_model-save_model}

abbrev pub IsBlock : List ℕ → Type 0
IsBlock block = All IsByte block × (length block ≡ 64)

abbrev Lengths : ℕ → List (List ℕ) → Type 0
Lengths n blocks = All (λ (b : List ℕ). length b ≡ n) blocks

split_all-Lengths :
    (prefixes residuals blocks : List (List ℕ))
    → All IsBlock blocks
    → Lengths 16 prefixes
    → Lengths 64 residuals
    → (ps : List (List ℕ)) × (rs : List (List ℕ)) × (split_all prefixes residuals blocks
        ≡ ok (ps, rs))
      × Lengths 16 ps
      × Lengths 64 rs
      × (length ps ≡ length prefixes + length blocks)
      × (length rs ≡ length residuals + length blocks)
unfolding split_all
split_all-Lengths prefixes residuals [] hb hp hr =
    (prefixes, residuals, refl, hp, hr, omega arith, omega arith)
split_all-Lengths prefixes residuals (block ∷ blocks) ((bytes, size), hb) hp hr =
    let (parts, split, is) = split_fpc-IsParts block bytes size in
    let (ps, rs, e, kp, kr, lp, lr) =
      split_all-Lengths (prefixes ++ (parts.tags ∷ [])) (residuals ++ (parts.residual_block ∷ []))
        blocks hb
        (All-append (λ (b : List ℕ). length b ≡ 16) prefixes (parts.tags ∷ []) hp (is.count, tt))
        (All-append (λ (b : List ℕ). length b ≡ 64) residuals (parts.residual_block ∷ []) hr
          (is.residual, tt)) in
    (
      ps,
      rs,
      rw split e,
      kp,
      kr,
      omega (arith, lp, length-append prefixes (parts.tags ∷ [])),
      omega (arith, lr, length-append residuals (parts.residual_block ∷ [])),
    )

IsTrained-IsStored :
    (n max_patterns : ℕ) (m : BselModel)
    → max_patterns ≤ 65535
    → IsTrained n max_patterns m
    → IsStored n m
IsTrained-IsStored n max m high t = record {
  size = t.size;
  few = omega (arith, t.few);
  sized = sizes m.patterns t.patterns;
}
  where
    sizes : (ps : List Pattern) → All (IsPatternOf n) ps → Sized n ps
    sizes [] h = tt
    sizes (p ∷ ps) ((l, b), h) = (l, sizes ps h)

-- For some blocks of 64 bytes and 1 to 65535 patterns, `train_model` returns a model for the tags and
-- the residual blocks, whose sets a model file can hold.
pub train_model-IsPair :
    (blocks : List (List ℕ)) (max_patterns : ℕ)
    → 0 < length blocks
    → All IsBlock blocks
    → 0 < max_patterns
    → max_patterns ≤ 65535
    → (model : Model) × (train_model blocks max_patterns ≡ ok model)
      × IsPair model
      × IsStored 16 model.prefix
      × IsStored 64 model.residual
unfolding train_model
train_model-IsPair blocks max more hb low high =
    let (ps, rs, split, kp, kr, lp, lr) = split_all-Lengths [] [] blocks hb tt tt in
    let (m, e, t) = train_bsel-IsTrained ps 16 max (omega arith) (omega arith) kp low high in
    let (m', e', t') = train_bsel-IsTrained rs 64 max (omega arith) (omega arith) kr low high in
    let full : (length blocks == 0) ≡ false = ground arith in
    (
      record { prefix = m; residual = m' },
      rw (full, split, e, e') refl,
      record {
        prefix = IsTrained-IsModel 16 max m high t;
        residual = IsTrained-IsModel 64 max m' high t';
        prefix_size = t.size;
        residual_size = t'.size;
      },
      IsTrained-IsStored 16 max m high t,
      IsTrained-IsStored 64 max m' high t',
    )

-- For some training blocks of 64 bytes, 1 to 65535 patterns and a block of 64 bytes: `train_model`
-- returns a model, `save_model` makes a file of it from which `load_model` returns the same model,
-- and with it `encode_block` returns at most 65 bytes from which `decode_block` returns the block.
pub trained_model_restores :
    (blocks : List (List ℕ)) (max_patterns : ℕ) (block : List ℕ)
    → 0 < length blocks
    → All IsBlock blocks
    → 0 < max_patterns
    → max_patterns ≤ 65535
    → IsBlock block
    → (model : Model) × (file : List ℕ) × (e : EncodedBlock) × (train_model blocks max_patterns
        ≡ ok model)
      × (save_model model ≡ ok file)
      × (load_model file ≡ ok model)
      × (encode_block block model ≡ ok e)
      × (length e.bytes ≤ 65)
      × (decode_block e.bytes model ≡ ok block)
trained_model_restores blocks max block more hb low high (bytes, size) =
    let (model, trained, pair, hp, hr) = train_model-IsPair blocks max more hb low high in
    let (file, saved, loaded) = load_model-save_model model hp hr in
    let (e, encoded, small, decoded) = decode_block-encode_block block model pair bytes size in
    (model, file, e, trained, saved, loaded, encoded, small, decoded)
