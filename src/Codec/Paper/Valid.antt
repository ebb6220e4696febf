-- ===== src/Codec/Paper/Valid.antt =====
-- Models that are built to the presets of src/paper_config.cpp are accepted by `validate_model`.
use Prim.Native.String.{String}
use mathlib.Core.Path.{subst}
use byte_select.Prelude.{ℕ, ◌^◌, ◌≤◌, ◌<◌, ◌≡◌, refl, sym, arith, inl, inr, ◌⊎◌, ◌==◌}
use byte_select.Prelude.{true, false, not, ◌||◌, ltb, leb, List, [], ◌∷◌, length, All}
use byte_select.Prelude.{ok}
use byte_select.Pattern.{Pattern, rank, size}
use byte_select.Codec.{
  PatternSet, Model, dictionary_size, validate_patterns, validate_sets, validate_model,
  tag_layout_bad,
}
use byte_select.Codec.{count_fits_bits, value_fits_bits, pattern_id_bits, contains, is_empty}
use byte_select.Codec.Paper.{
  PaperTargetConfig, set_of, bsel_256, bsel_4096, bsel_1024_1024_128, paper_config,
  paper_config_cases,
}

-- The patterns are for blocks of `n` bytes, fit the dictionary, and are not more than asked for.
pub record IsMade (n : ℕ) (t : PaperTargetConfig) (patterns : List Pattern) : Type 0 where
  pub few : length patterns ≤ t.max_patterns
  pub suited :
      All
        (λ (p : Pattern). (length p.symbols ≡ n) × (rank p ≤ dictionary_size (set_of t patterns)))
        patterns

-- Sets for the targets, one each.
unfoldable pub IsModelOf : ℕ → List PaperTargetConfig → List PatternSet → Type 0
IsModelOf n [] [] = Unit {0}
IsModelOf n [] (s ∷ sets) = ⊥
IsModelOf n (t ∷ targets) [] = ⊥
IsModelOf n (t ∷ targets) (s ∷ sets) =
    ((s ≡ set_of t s.patterns) × IsMade n t s.patterns) × IsModelOf n targets sets

validate_patterns_ok :
    (m : Model) (s : PatternSet) (ps : List Pattern)
    → All (λ (p : Pattern). (length p.symbols ≡ m.block_size) × (rank p ≤ dictionary_size s)) ps
    → validate_patterns m s ps ≡ ok tt
unfolding validate_patterns size
validate_patterns_ok m s [] h = refl
validate_patterns_ok m s (p ∷ ps) ((l, r), h) =
    let fine : (not (length p.symbols == m.block_size) || ltb (dictionary_size s) (rank p))
        ≡ false =
      ground arith in
    rw fine (validate_patterns_ok m s ps h)

-- A set that is made to a target passes the checks.
validate_set :
    (m : Model) (seen : List ℕ) (t : PaperTargetConfig) (patterns : List Pattern)
    (rest : List PatternSet)
    → IsMade m.block_size t patterns
    → (t.target_size == 0 || leb t.target_size t.metadata_bytes) ≡ false
    → leb m.block_size t.target_size ≡ false
    → tag_layout_bad (set_of t []) ≡ false
    → contains t.target_size seen ≡ false
    → count_fits_bits (length patterns) (pattern_id_bits (set_of t [])) ≡ true
    → validate_sets m (t.target_size ∷ seen) rest ≡ ok tt
    → validate_sets m seen (set_of t patterns ∷ rest) ≡ ok tt
unfolding validate_sets tag_layout_bad
validate_set m seen t patterns rest made room below layout fresh capacity h =
    rw
      (
        room,
        below,
        layout,
        fresh,
        capacity,
        validate_patterns_ok m (set_of t patterns) patterns made.suited,
      )
      h

module _ (m : Model) (large : 32 < m.block_size) where
  -- One set of a preset, whose numbers are checked by computing.
  preset_set :
      (seen : List ℕ) (t : PaperTargetConfig) (s : PatternSet) (rest : List PatternSet)
      → (s ≡ set_of t s.patterns) × IsMade m.block_size t s.patterns
      → t.target_size ≤ 32
      → (t.target_size == 0 || leb t.target_size t.metadata_bytes) ≡ false
      → tag_layout_bad (set_of t []) ≡ false
      → contains t.target_size seen ≡ false
      → leb 64 (pattern_id_bits (set_of t [])) ≡ false
      → t.max_patterns ≤ 2 ^ pattern_id_bits (set_of t [])
      → validate_sets m (t.target_size ∷ seen) rest ≡ ok tt
      → validate_sets m seen (s ∷ rest) ≡ ok tt
  unfolding count_fits_bits
  preset_set seen t s rest (e, made) small room layout fresh narrow enough h =
      let few = made.few in
      let below : leb m.block_size t.target_size ≡ false = ground arith in
      let fits : leb (length s.patterns) (2 ^ pattern_id_bits (set_of t [])) ≡ true =
        ground arith in
      subst (λ (x : PatternSet). validate_sets m seen (x ∷ rest) ≡ ok tt) (sym e)
        (validate_set m seen t s.patterns rest made room below layout fresh (rw narrow fits) h)

  preset_sets :
      (targets : List PaperTargetConfig) (sets : List PatternSet)
      → IsModelOf m.block_size targets sets
      → (bsel_256 ≡ targets) ⊎ ((bsel_4096 ≡ targets) ⊎ (bsel_1024_1024_128 ≡ targets))
      → (validate_sets m [] sets ≡ ok tt) × (is_empty sets ≡ false)
  unfolding IsModelOf validate_sets tag_layout_bad value_fits_bits contains is_empty
  preset_sets targets sets made (inl e) =
      one sets (subst (λ ts. IsModelOf m.block_size ts sets) (sym e) made)
    where
      one :
          (sets : List PatternSet)
          → IsModelOf m.block_size bsel_256 sets
          → (validate_sets m [] sets ≡ ok tt) × (is_empty sets ≡ false)
      one [] h = elim h [ ]
      one (s ∷ []) (h, end) =
          (preset_set [] _ s [] h (omega arith) refl refl refl refl (omega arith) refl, refl)
      one (s ∷ s' ∷ sets) (h, end) = elim end [ ]
  preset_sets targets sets made (inr (inl e)) =
      two sets (subst (λ ts. IsModelOf m.block_size ts sets) (sym e) made)
    where
      two :
          (sets : List PatternSet)
          → IsModelOf m.block_size bsel_4096 sets
          → (validate_sets m [] sets ≡ ok tt) × (is_empty sets ≡ false)
      two [] h = elim h [ ]
      two (s ∷ []) (h, end) =
          (preset_set [] _ s [] h (omega arith) refl refl refl refl (omega arith) refl, refl)
      two (s ∷ s' ∷ sets) (h, end) = elim end [ ]
  preset_sets targets sets made (inr (inr e)) =
      three sets (subst (λ ts. IsModelOf m.block_size ts sets) (sym e) made)
    where
      three :
          (sets : List PatternSet)
          → IsModelOf m.block_size bsel_1024_1024_128 sets
          → (validate_sets m [] sets ≡ ok tt) × (is_empty sets ≡ false)
      three [] h = elim h [ ]
      three (s ∷ []) (h, end) = elim end [ ]
      three (s ∷ s' ∷ []) (h, (h', end)) = elim end [ ]
      three (s ∷ s' ∷ s'' ∷ []) (h, (h', (h'', end))) = (
        preset_set [] _ s (s' ∷ s'' ∷ []) h (omega arith) refl refl refl refl (omega arith) (
            preset_set (32 ∷ []) _ s' (s'' ∷ []) h' (omega arith) refl refl refl refl (omega arith)
              (preset_set (16 ∷ 32 ∷ []) _ s'' [] h'' (omega arith) refl refl refl refl
                (omega arith) refl)),
        refl,
      )
      three (s ∷ s' ∷ s'' ∷ s''' ∷ sets) (h, (h', (h'', end))) = elim end [ ]

  -- A model for blocks of more than 32 bytes with a set for each target of a preset, of no more
  -- patterns than the preset asks for, for these blocks and with dictionaries that fit, is accepted by
  -- `validate_model`.
  pub validate_model-paper_config :
      (name : String) (targets : List PaperTargetConfig)
      → paper_config name ≡ ok targets
      → IsModelOf m.block_size targets m.sets
      → validate_model m ≡ ok tt
  unfolding validate_model
  validate_model-paper_config name targets h made =
      let (valid, some) = preset_sets targets m.sets made (paper_config_cases name targets h) in
      let full : (m.block_size == 0) ≡ false = ground arith in rw (full, some) valid
