-- ===== src/Codec/Evaluate/Bound.antt =====
-- No model does better on a block than `evaluate_byte_select_upper_bound` says (src/codec.cpp).
use mathlib.Core.Path.{subst}
use byte_select.Prelude.{
  ℕ, ◌+◌, ◌-◌, ◌^◌, ◌≤◌, ◌<◌, ◌≡◌, ◌⊎◌, refl, sym, ◌∙◌, ap, arith, Bool-cases, inl, inr,
}
use byte_select.Prelude.{true, leb, ◌==◌, Result-cases, Option-cases}
use byte_select.Prelude.{List, [], ◌∷◌, length, get_or, All, All-get_or, ok, some}
use byte_select.Prelude.Sorting.{
  IsAscending, sorted_unique, sorted_unique-All, sorted_unique-IsAscending,
}
use byte_select.Pattern.{Pattern, Block, describes, rank, simplest}
use byte_select.Pattern.Rank.{rank_least}
use byte_select.Codec.{
  Model, PatternSet, EncodedBlock, dictionary_size, sub_size, encode_pattern_metadata,
  validate_model,
}
use byte_select.Codec.Compress.{
  set_at, empty_set, compress, try_patterns, try_sets, compressed_block, raw_block,
}
use byte_select.Codec.Compress.{sort_by_target, indices}
use byte_select.Codec.Dictionary.{make_dictionary_lem}
use byte_select.Codec.Sorting.{All-sort_by_target, indices-lt}
use byte_select.Codec.Validity.{IsValidSet, IsSized, validate_model_valid}
use byte_select.Codec.Evaluate.{first_target, bound_allocated, check_targets}

-- The block was filled in from a pattern of a set.
unfoldable pub Taken : Block → Model → EncodedBlock → Type 0
Taken block m e =
    (i : ℕ) × (p : Pattern) × (i < length m.sets)
    × (describes p block ≡ true)
    × (rank p ≤ dictionary_size (set_at m i))
    × (e.allocated_size ≡ (set_at m i).target_size)

module _ (block : Block) (m : Model) (e : EncodedBlock) where
  try_patterns-Taken :
      (i index : ℕ) (ps : List Pattern)
      → i < length m.sets
      → try_patterns block (set_at m i) i index ps ≡ ok (some e)
      → Taken block m e
  unfolding try_patterns compressed_block Taken
  try_patterns-Taken i index [] hi h = absurd (ground arith)
  try_patterns-Taken i index (p ∷ ps) hi h =
      let s = set_at m i in
      elim (Bool-cases (describes p block)) [
        | inr other ↦
            try_patterns-Taken i (index + 1) ps hi
              (rw ((make_dictionary_lem block p).1 other, try_patterns) at h)
        | inl same ↦
            let (d, made, l, sel) = (make_dictionary_lem block p).0 same in
            elim (Bool-cases (leb (length d) (dictionary_size s))) [
              | inr large ↦
                  try_patterns-Taken i (index + 1) ps hi (rw (made, try_patterns, large) at h)
              | inl small ↦ elim (Result-cases (encode_pattern_metadata s index)) [
                | inr (x, bad) ↦ absurd (ground (arith, rw (made, try_patterns, small, bad) at h))
                | inl (word, good) ↦
                    let equal = rw (made, try_patterns, small, good) at h in
                    (i, p, hi, same, ground arith, cc)
              ]
            ]
      ]

  try_sets-Taken :
      (order : List ℕ)
      → All (λ i. i < length m.sets) order
      → try_sets block m order ≡ ok (some e)
      → Taken block m e
  unfolding try_sets
  try_sets-Taken [] hi h = absurd (ground arith)
  try_sets-Taken (i ∷ order) (hi, his) h =
      let s = set_at m i in
      elim (Bool-cases (leb s.target_size s.metadata_bytes)) [
        | inl bad ↦ absurd (ground (arith, rw bad at h))
        | inr roomy ↦ elim (Result-cases (try_patterns block s i 0 s.patterns)) [
          | inr (x, bad) ↦ absurd (ground (arith, rw (roomy, bad) at h))
          | inl (found, good) ↦ elim (Option-cases found) [
            | inl nothing ↦ try_sets-Taken order his (rw (roomy, good, nothing) at h)
            | inr (e', hit) ↦
                let equal : ok (some e') ≡ ok (some e) = rw (roomy, good, hit) at h in
                try_patterns-Taken i 0 s.patterns hi (good ∙ ap ok hit ∙ equal)
          ]
        ]
      ]

-- A result of `compress` is allocated the size of the block, or was filled in from a pattern.
pub compress-Taken :
    (block : Block) (m : Model) (e : EncodedBlock)
    → compress block m ≡ ok e
    → (e.allocated_size ≡ length block) ⊎ Taken block m e
unfolding compress raw_block
compress-Taken block m e h =
    let order = sort_by_target m (indices 0 (length m.sets)) in
    let inside =
      All-sort_by_target m (λ k. k < length m.sets) (indices 0 (length m.sets))
        (indices-lt 0 (length m.sets) (length m.sets) (omega arith)) in
    elim (Bool-cases (length block == m.block_size)) [
      | inr bad ↦ absurd (ground (arith, rw bad at h))
      | inl fits ↦ elim (Result-cases (try_sets block m order)) [
        | inr (x, bad) ↦ absurd (ground (arith, rw (fits, bad) at h))
        | inl (found, good) ↦ elim (Option-cases found) [
          | inl nothing ↦ (let equal = rw (fits, good, nothing) at h in inl (cc))
          | inr (e', hit) ↦
              let equal : ok e' ≡ ok e = rw (fits, good, hit) at h in
              inr (try_sets-Taken block m e order inside (good ∙ ap ok (hit ∙ cc)))
        ]
      ]
    ]

-- The checks of the targets, passed.
abbrev pub IsTarget : ℕ → ℕ → ℕ → Type 0
IsTarget block_size metadata_bytes t = (t < block_size) × (metadata_bytes < t)

pub check_targets-IsTarget :
    (n b : ℕ) (targets : List ℕ) → check_targets n b targets ≡ ok tt → All (IsTarget n b) targets
unfolding check_targets
check_targets-IsTarget n b [] h = tt
check_targets-IsTarget n b (t ∷ targets) h =
    let rest : check_targets n b targets ≡ ok tt = ground arith in
    ((ground arith, ground arith), check_targets-IsTarget n b targets rest)

-- The allocation is no larger than any target where the unique bytes fit, nor than the block.
abbrev IsLeast : ℕ → ℕ → ℕ → ℕ → List ℕ → Type 0
IsLeast n b u allocated targets = All (λ t. u ≤ t - b → allocated ≤ t) targets × (allocated ≤ n)

first_target-IsLeast :
    (n b u i : ℕ) (targets : List ℕ)
    → n < 2 ^ 64
    → All (IsTarget n b) targets
    → IsAscending targets
    → IsLeast n b u (bound_allocated n (first_target u b i targets)) targets
unfolding first_target bound_allocated IsAscending
first_target-IsLeast n b u i [] hn h up = (tt, omega arith)
first_target-IsLeast n b u i (t ∷ targets) hn ((small, room), h) (above, up) =
    let difference : sub_size t b ≡ t - b = omega arith in
    elim (Bool-cases (leb u (t - b))) [
      | inl fits ↦
          let step : bound_allocated n (first_target u b i (t ∷ targets)) ≡ t =
            rw (difference, fits) refl in
          subst (λ (x : ℕ). IsLeast n b u x (t ∷ targets)) (sym step)
            ((λ k. omega arith, largest t targets above), omega arith)
      | inr unfit ↦
          let (rest, whole) = first_target-IsLeast n b u (i + 1) targets hn h up in
          let step : bound_allocated n (first_target u b i (t ∷ targets))
              ≡ bound_allocated n (first_target u b (i + 1) targets) =
            rw (difference, unfit) refl in
          subst (λ (x : ℕ). IsLeast n b u x (t ∷ targets)) (sym step)
            ((λ k. absurd (ground arith), rest), whole)
    ]
  where
    largest :
        (t : ℕ) (targets : List ℕ) → All (λ y. t < y) targets → All (λ y. u ≤ y - b → t ≤ y) targets
    largest t [] h = tt
    largest t (y ∷ targets) (hy, h) = (λ k. omega arith, largest t targets h)

-- The target sizes and the metadata width of the sets of a model are covered by those given.
abbrev pub IsCovered : List ℕ → ℕ → PatternSet → Type 0
IsCovered target_sizes metadata_bytes s =
    (j : ℕ) × (j < length target_sizes)
    × (get_or target_sizes j 0 ≡ s.target_size)
    × (metadata_bytes ≤ s.metadata_bytes)

-- For a model that `validate_model` accepts, whose target sizes are among those given and whose
-- metadata is no narrower, and for a block of fewer than 65536 bytes that `compress` encodes: the
-- size that the upper bound allocates for the block is not larger than the one that is allocated.
pub bound_allocated_le :
    (block : Block) (m : Model) (e : EncodedBlock) (target_sizes : List ℕ) (metadata_bytes : ℕ)
    → IsSized m
    → validate_model m ≡ ok tt
    → length block < 2 ^ 16
    → All (IsCovered target_sizes metadata_bytes) m.sets
    → check_targets (length block) metadata_bytes (sorted_unique target_sizes) ≡ ok tt
    → compress block m ≡ ok e
    → bound_allocated
        (length block)
        (first_target (rank (simplest block)) metadata_bytes 0 (sorted_unique target_sizes))
      ≤ e.allocated_size
unfolding Taken
bound_allocated_le block m e targets b sizes accepted fits covered checked made =
    let n = length block in
    let u = rank (simplest block) in
    let allocated = bound_allocated n (first_target u b 0 (sorted_unique targets)) in
    let (least, whole) =
      first_target-IsLeast n b u 0 (sorted_unique targets) (omega arith)
        (check_targets-IsTarget n b (sorted_unique targets) checked)
        (sorted_unique-IsAscending targets) in
    elim (compress-Taken block m e made) [
      | inl raw ↦ omega (arith, whole)
      | inr (i, p, hi, same, rank_ok, size) ↦
          let s = set_at m i in
          let v : IsValidSet m s =
            All-get_or (IsValidSet m) m.sets i empty_set (validate_model_valid m sizes accepted)
              hi in
          let (j, hj, target, wide) =
            All-get_or (IsCovered targets b) m.sets i empty_set covered hi in
          let at_target =
            All-get_or (λ t. u ≤ t - b → allocated ≤ t) targets j 0
              (sorted_unique-All (λ t. u ≤ t - b → allocated ≤ t) targets least) hj in
          let small = rank_least block p fits same in
          let room = v.room in
          let bounded = v.smaller in
          let block_small = sizes.0 in
          let dictionary : dictionary_size s ≡ s.target_size - s.metadata_bytes = omega arith in
          let le : allocated ≤ get_or targets j 0 = at_target (rw target (omega (arith, small))) in
          omega (arith, le)
    ]
