-- ===== src/Codec/Evaluate/Refines.antt =====
-- The two evaluations of the same blocks (src/codec.cpp), compared.
use mathlib.Core.Path.{subst}
use byte_select.Prelude.{ℕ, ◌+◌, ◌^◌, ◌≤◌, ◌<◌, ◌≡◌, refl, ◌∙◌, ap₂, arith, Option, inl, inr}
use byte_select.Prelude.{true, false, ◌==◌, List, [], ◌∷◌, length, All, All-get_or, ok}
use byte_select.Prelude.Sorting.{sorted_unique}
use byte_select.Pattern.{Block, rank, simplest}
use byte_select.Codec.{Model, EncodedBlock, validate_model}
use byte_select.Codec.Compress.{compress, empty_set}
use byte_select.Codec.RoundTrip.{decompress-compress}
use byte_select.Codec.Validity.{IsValidSet, IsSized, validate_model_valid}
use byte_select.Codec.Evaluate.{
  Evaluation, count_encoded, evaluate_loop, evaluate, UpperBoundEvaluation, count_bound, bound_loop,
}
use byte_select.Codec.Evaluate.{
  evaluate_byte_select_upper_bound, first_target, bound_allocated, check_targets, empty_bound,
}
use byte_select.Codec.Evaluate.Bound.{Taken, compress-Taken, bound_allocated_le, IsCovered}

-- The bytes of the blocks.
unfoldable pub total_bytes : List Block → ℕ
total_bytes [] = 0
total_bytes (block ∷ blocks) = length block + total_bytes blocks

-- The counters of the two evaluations behind blocks of `t` bytes.
pub record Compares (t : ℕ) (r : Evaluation) (u : UpperBoundEvaluation) : Type 0 where
  pub original : r.original_bytes ≡ t
  pub original_bound : u.original_bytes ≡ t
  pub quantized : u.quantized_bytes ≤ r.allocated_bytes
  pub allocated : r.allocated_bytes ≤ t

compress-allocated_le :
    (block : Block) (m : Model) (e : EncodedBlock)
    → IsSized m
    → validate_model m ≡ ok tt
    → length block ≡ m.block_size
    → compress block m ≡ ok e
    → e.allocated_size ≤ length block
unfolding Taken
compress-allocated_le block m e sizes accepted sized made = elim (compress-Taken block m e made) [
  | inl raw ↦ omega arith
  | inr (i, p, hi, same, rank_ok, size) ↦
      let v =
        All-get_or (IsValidSet m) m.sets i empty_set (validate_model_valid m sizes accepted) hi in
      let small = v.smaller in omega arith
]

count_bound_keeps :
    (u : UpperBoundEvaluation) (n unique : ℕ) (found : Option (ℕ × ℕ))
    → ((count_bound u n unique found).metadata_bytes ≡ u.metadata_bytes)
      × ((count_bound u n unique found).target_sizes ≡ u.target_sizes)
unfolding count_bound
count_bound_keeps u n unique found = (refl, refl)

module _ (m : Model) (target_sizes : List ℕ) (metadata_bytes : ℕ) (sizes : IsSized m)
    (accepted : validate_model m ≡ ok tt) (fits : m.block_size < 2 ^ 16)
    (covered : All (IsCovered target_sizes metadata_bytes) m.sets)
    (checked : check_targets m.block_size metadata_bytes (sorted_unique target_sizes) ≡ ok tt) where
  -- A block adds to both.
  Compares-block :
      (t : ℕ) (r : Evaluation) (u : UpperBoundEvaluation) (block : Block) (e : EncodedBlock)
      → Compares t r u
      → length block ≡ m.block_size
      → compress block m ≡ ok e
      → t + length block < 2 ^ 64
      → Compares (t + length block) (count_encoded r block e) (
          count_bound u m.block_size
            (rank (simplest block))
            (first_target (rank (simplest block)) metadata_bytes 0 (sorted_unique target_sizes)))
  unfolding count_encoded count_bound
  Compares-block t r u block e c sized made small =
      let below : bound_allocated m.block_size
            (first_target (rank (simplest block)) metadata_bytes 0 (sorted_unique target_sizes))
          ≤ e.allocated_size =
        rw sized at (
          bound_allocated_le block m e target_sizes metadata_bytes sizes accepted (omega arith)
            covered (rw sized checked) made) in
      let within = compress-allocated_le block m e sizes accepted sized made in
      let a = c.original in
      let b = c.original_bound in
      let q = c.quantized in
      let l = c.allocated in
      record {
        original = omega arith;
        original_bound = omega arith;
        quantized = omega arith;
        allocated = omega arith;
      }

  loops-Compares :
      (blocks : List Block) (t : ℕ) (r : Evaluation) (u : UpperBoundEvaluation)
      → All (λ (b : Block). length b ≡ m.block_size) blocks
      → t + total_bytes blocks < 2 ^ 64
      → u.metadata_bytes ≡ metadata_bytes
      → u.target_sizes ≡ sorted_unique target_sizes
      → Compares t r u
      → (r' : Evaluation) × (u' : UpperBoundEvaluation) × (evaluate_loop r blocks m ≡ ok r')
        × (bound_loop u m.block_size blocks ≡ ok u')
        × Compares (t + total_bytes blocks) r' u'
  unfolding evaluate_loop bound_loop total_bytes
  loops-Compares [] t r u sized small hb ht c =
      let end : t ≡ t + 0 = omega arith in
      (r, u, refl, refl, subst (λ (n : ℕ). Compares n r u) end c)
  loops-Compares (block ∷ blocks) t r u (size, sized) small hb ht c =
      let (e, made, back) = decompress-compress block m sizes accepted size in
      let same : (length block == m.block_size) ≡ true = ground arith in
      let found =
        first_target (rank (simplest block)) metadata_bytes 0 (sorted_unique target_sizes) in
      let (r', u', re, ue, d) =
        loops-Compares blocks (t + length block) (count_encoded r block e)
          (count_bound u m.block_size (rank (simplest block)) found) sized (omega arith)
          ((count_bound_keeps u m.block_size (rank (simplest block)) found).0 ∙ hb)
          ((count_bound_keeps u m.block_size (rank (simplest block)) found).1 ∙ ht)
          (Compares-block t r u block e c size made (omega arith)) in
      let again : bound_loop
            (count_bound u m.block_size (rank (simplest block))
              (first_target (rank (simplest block)) u.metadata_bytes 0 u.target_sizes))
            m.block_size blocks
          ≡ bound_loop (count_bound u m.block_size (rank (simplest block)) found) m.block_size
              blocks =
        ap₂
          (λ (b : ℕ) (ts : List ℕ).
            bound_loop
              (count_bound u m.block_size (rank (simplest block))
                (first_target (rank (simplest block)) b 0 ts))
              m.block_size blocks)
          hb ht in
      let sum : t + length block + total_bytes blocks ≡ t + (length block + total_bytes blocks) =
        omega arith in
      (r', u', rw made re, rw same (again ∙ ue), subst (λ (n : ℕ). Compares n r' u') sum d)

  -- For some blocks of the model's block size, which take fewer than 2 ^ 64 bytes together: both
  -- evaluations return, count the bytes of the blocks, and the upper bound allocates no more than
  -- the model does, which allocates no more than the blocks.
  pub evaluations_compare :
      (block : Block) (blocks : List Block)
      → 0 < m.block_size
      → All (λ (b : Block). length b ≡ m.block_size) (block ∷ blocks)
      → total_bytes (block ∷ blocks) < 2 ^ 64
      → (r : Evaluation) × (u : UpperBoundEvaluation) × (evaluate (block ∷ blocks) m ≡ ok r)
        × (evaluate_byte_select_upper_bound (block ∷ blocks) target_sizes metadata_bytes ≡ ok u)
        × Compares (total_bytes (block ∷ blocks)) r u
  unfolding evaluate evaluate_byte_select_upper_bound
  evaluations_compare block blocks more (size, sized) small =
      let (r, u, re, ue, c) =
        loops-Compares (block ∷ blocks) 0 _
          (empty_bound metadata_bytes (sorted_unique target_sizes)) (size, sized) (omega arith) refl
          refl
          (record {
            original = refl;
            original_bound = refl;
            quantized = omega arith;
            allocated = omega arith;
          }) in
      let start : 0 + total_bytes (block ∷ blocks) ≡ total_bytes (block ∷ blocks) = omega arith in
      let full : (length block == 0) ≡ false = ground arith in
      (r, u, re, rw (full, size, checked) ue, subst (λ (n : ℕ). Compares n r u) start c)
