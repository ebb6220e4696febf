-- ===== src/FpcBsel/Examples.antt =====
-- Runs of the program FPC+BSEL on small inputs.
use byte_select.Prelude.{
  ℕ, ◌≤◌, ◌<◌, ◌≡◌, ◌↔◌, get_or, refl, arith, List, [], ◌∷◌, ◌++◌, length, replicate, All,
}
use byte_select.Prelude.{Option, none, some, ok, err, runtime_error}
use byte_select.Word.Load.{IsByte}
use byte_select.FpcBsel.Fpc.{fpc_encode, fpc_decode}
use byte_select.FpcBsel.Fpc.Blocks.{fpc_decode-fpc_encode_block}
use byte_select.FpcBsel.Bsel.{
  Pattern, simplest_pattern, BselModel, bsel_encode, bsel_decode, encode_patterns, fill, rank,
  rank_of, max_element, put_u16, get_u16, better,
}
use byte_select.FpcBsel.Bsel.RoundTrip.{IsModel, bsel_decode-bsel_encode}
use byte_select.FpcBsel.Codec.{Model, EncodedBlock, encode_block, decode_block}
use byte_select.Fpc
use byte_select.FpcBsel.Fpc.Baseline.{fpc_encode-baseline}
use byte_select.FpcBsel.Bsel.Train.{train_bsel}
use byte_select.FpcBsel.Bsel.Selected.{IsBest, train_bsel-IsBest}
use byte_select.FpcBsel.Bsel.Simplest.{simplest_pattern-simplest}
use byte_select.Pattern.{simplest}
use byte_select.FpcBsel.Model.{train_model, save_model, load_model}
use byte_select.FpcBsel.Model.Training.{trained_model_restores}
use byte_select.FpcBsel.Model.Files.{load_model-save_model}
use byte_select.FpcBsel.Codec.RoundTrip.{IsPair, decode_block-encode_block}

-- Words of several codes, the raw one included, and zeros.
abbrev block : List ℕ
block =
    (250 ∷ 255 ∷ 255 ∷ 255 ∷ 7 ∷ 0 ∷ 128 ∷ 255 ∷ 1 ∷ 2 ∷ 3 ∷ 4 ∷ 1 ∷ 2 ∷ 3 ∷ 4 ∷ [])
    ++ replicate 48 0

block-IsByte : All IsByte block
block-IsByte = ground arith

-- Sixteen tags: one symbol for all, and one where only the first differs.
abbrev tag_model : BselModel
tag_model = record {
  block_size = 16;
  patterns = (record { symbols = replicate 16 0 }) ∷ (record { symbols = 1 ∷ replicate 15 0 }) ∷ [];
}

abbrev residual_model : BselModel
residual_model = record {
  block_size = 64;
  patterns =
      (record { symbols = 0 ∷ 1 ∷ replicate 62 0 })
      ∷ (record {
        symbols = replicate 8 0 ++ ((1 ∷ 2 ∷ 3 ∷ 4 ∷ 1 ∷ 2 ∷ 3 ∷ 4 ∷ []) ++ replicate 48 0);
      })
      ∷ [];
}

tag_model-IsModel : IsModel tag_model
tag_model-IsModel = record { few = omega arith; sized = ground arith }

residual_model-IsModel : IsModel residual_model
residual_model-IsModel = record { few = omega arith; sized = ground arith }

models : Model
models = record { prefix = tag_model; residual = residual_model }

models-IsPair : IsPair models
unfolding models
models-IsPair = record {
  prefix = tag_model-IsModel;
  residual = residual_model-IsModel;
  prefix_size = refl;
  residual_size = refl;
}

taken : bsel_encode (3 ∷ replicate 15 0) tag_model ≡ ok (some (1 ∷ 0 ∷ 0 ∷ 3 ∷ []))
unfolding bsel_encode encode_patterns fill rank rank_of max_element put_u16 better
taken = refl

not_taken : bsel_encode (3 ∷ 4 ∷ replicate 14 0) tag_model ≡ ok none
unfolding bsel_encode encode_patterns fill rank rank_of max_element
not_taken = refl

unknown_id : bsel_decode (2 ∷ 0 ∷ 9 ∷ []) tag_model ≡ err (runtime_error "unknown BSEL pattern id")
unfolding bsel_decode get_u16
unknown_id = refl

decode_block-encode_block_example :
    (e : EncodedBlock) × (encode_block block models ≡ ok e)
    × (length e.bytes ≤ 65)
    × (decode_block e.bytes models ≡ ok block)
decode_block-encode_block_example =
    decode_block-encode_block block models models-IsPair block-IsByte refl

fpc_decode-fpc_encode_block_example :
    (encoded : List ℕ) × (fpc_encode block ≡ ok encoded) × (fpc_decode encoded ≡ ok block)
fpc_decode-fpc_encode_block_example = fpc_decode-fpc_encode_block block block-IsByte refl

bsel_decode-bsel_encode_example :
    (r : Option (List ℕ)) × (bsel_encode (3 ∷ replicate 15 0) tag_model ≡ ok r)
    × ((e : List ℕ) → r ≡ some e → bsel_decode e tag_model ≡ ok (3 ∷ replicate 15 0))
bsel_decode-bsel_encode_example =
    bsel_decode-bsel_encode (3 ∷ replicate 15 0) tag_model tag_model-IsModel refl

fpc_encode-baseline_example : fpc_encode block ≡ Fpc.fpc_encode block
fpc_encode-baseline_example = fpc_encode-baseline block block-IsByte refl

abbrev pair_block : List ℕ
pair_block = 5 ∷ 5 ∷ 6 ∷ []

simplest_pattern-simplest_example :
    (p : Pattern) × (simplest_pattern pair_block ≡ ok p)
    × (p.symbols ≡ (simplest pair_block).symbols)
    × (length p.symbols ≡ length pair_block)
    × ((i j : ℕ)
        → i < length pair_block
        → j < length pair_block
        → (get_or p.symbols i 0 ≡ get_or p.symbols j 0)
          ↔ (get_or pair_block i 0 ≡ get_or pair_block j 0))
simplest_pattern-simplest_example = simplest_pattern-simplest pair_block (omega arith) (omega arith)

train_bsel-IsBest_example :
    (m : BselModel) × (train_bsel ((5 ∷ 5 ∷ 6 ∷ []) ∷ (1 ∷ 2 ∷ 1 ∷ []) ∷ (7 ∷ 7 ∷ 0 ∷ []) ∷ []) 1
      ≡ ok m)
    × IsBest 3 1 ((5 ∷ 5 ∷ 6 ∷ []) ∷ (1 ∷ 2 ∷ 1 ∷ []) ∷ (7 ∷ 7 ∷ 0 ∷ []) ∷ []) m
train_bsel-IsBest_example =
    train_bsel-IsBest ((5 ∷ 5 ∷ 6 ∷ []) ∷ (1 ∷ 2 ∷ 1 ∷ []) ∷ (7 ∷ 7 ∷ 0 ∷ []) ∷ []) 3 1
      (omega arith) (omega arith) (omega arith) (refl, (refl, (refl, tt))) (omega arith)
      (omega arith)

trained_model_restores_example :
    (model : Model) × (file : List ℕ) × (e : EncodedBlock) × (train_model
        (block ∷ replicate 64 9 ∷ [])
        2
      ≡ ok model)
    × (save_model model ≡ ok file)
    × (load_model file ≡ ok model)
    × (encode_block block model ≡ ok e)
    × (length e.bytes ≤ 65)
    × (decode_block e.bytes model ≡ ok block)
trained_model_restores_example =
    trained_model_restores (block ∷ replicate 64 9 ∷ []) 2 block (omega arith)
      ((block-IsByte, refl), ((ground arith, refl), tt)) (omega arith) (omega arith)
      (block-IsByte, refl)

load_model-save_model_example :
    (file : List ℕ) × (save_model models ≡ ok file) × (load_model file ≡ ok models)
unfolding models
load_model-save_model_example =
    load_model-save_model models (record { size = refl; few = omega arith; sized = ground arith })
      (record { size = refl; few = omega arith; sized = ground arith })
