-- ===== src/Codec/Validity.antt =====
-- What a model that `validate_model` accepts satisfies.
use byte_select.Prelude.{ℕ, ◌^◌, ◌≤◌, ◌<◌, ◌≡◌}
use byte_select.Prelude.{arith, true, false, List, [], ◌∷◌, length, All}
use byte_select.Prelude.{ok}
use byte_select.Pattern.{Pattern, rank, size}
use byte_select.Codec.{Model, PatternSet, validate_model, validate_sets, validate_patterns}
use byte_select.Codec.{tag_layout_bad, count_fits_bits, dictionary_size}
use byte_select.Codec.{pattern_id_bits}
use byte_select.Codec.Metadata.{IsLayout}

abbrev pub SuitsPattern : Model → PatternSet → Pattern → Type 0
SuitsPattern m s p = (length p.symbols ≡ m.block_size) × (rank p ≤ dictionary_size s)

pub record IsValidSet (m : Model) (s : PatternSet) : Type 0 where
  pub room : s.metadata_bytes < s.target_size
  pub smaller : s.target_size < m.block_size
  pub layout : IsLayout s
  pub capacity : count_fits_bits (length s.patterns) (pattern_id_bits s) ≡ true
  pub suited : All (SuitsPattern m s) s.patterns

validate_patterns_suited :
    (m : Model) (s : PatternSet) (ps : List Pattern)
    → validate_patterns m s ps ≡ ok tt
    → All (SuitsPattern m s) ps
unfolding validate_patterns size
validate_patterns_suited m s [] h = tt
validate_patterns_suited m s (p ∷ ps) h =
    ((ground arith, ground arith), validate_patterns_suited m s ps (ground arith))

tag_layout_bad-IsLayout :
    (s : PatternSet)
    → s.metadata_bytes < 2 ^ 64
    → s.metadata_tag_bits < 2 ^ 64
    → tag_layout_bad s ≡ false
    → IsLayout s
unfolding tag_layout_bad
tag_layout_bad-IsLayout s hm ht h = record {
  narrow = ground arith;
  tag_bits_le_bits = ground arith;
  tag_bits_le_64 = ground arith;
  id_bits_small = ground arith;
  tag_fits = ground arith;
}

-- The sizes of a model are values of `size_t`.
abbrev pub IsSized : Model → Type 0
IsSized m = (m.block_size < 2 ^ 64) × All (λ (s : PatternSet). s.metadata_tag_bits < 2 ^ 64) m.sets

validate_sets_valid :
    (m : Model) (seen : List ℕ) (sets : List PatternSet)
    → m.block_size < 2 ^ 64
    → All (λ (s : PatternSet). s.metadata_tag_bits < 2 ^ 64) sets
    → validate_sets m seen sets ≡ ok tt
    → All (IsValidSet m) sets
unfolding validate_sets
validate_sets_valid m seen [] hb ht h = tt
validate_sets_valid m seen (s ∷ sets) hb (ht, hts) h =
    let layout : tag_layout_bad s ≡ false = ground arith in
    let suited : validate_patterns m s s.patterns ≡ ok tt = ground arith in
    let rest : validate_sets m (s.target_size ∷ seen) sets ≡ ok tt = ground arith in
    (
      record {
        room = ground arith;
        smaller = ground arith;
        layout = tag_layout_bad-IsLayout s (ground arith) ht layout;
        capacity = ground arith;
        suited = validate_patterns_suited m s s.patterns suited;
      },
      validate_sets_valid m (s.target_size ∷ seen) sets hb hts rest,
    )

pub validate_model_valid :
    (m : Model) → IsSized m → validate_model m ≡ ok tt → All (IsValidSet m) m.sets
unfolding validate_model
validate_model_valid m (hb, ht) h = validate_sets_valid m [] m.sets hb ht (ground arith)
