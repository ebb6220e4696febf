-- ===== src/Codec/Least.antt =====
-- `compress` takes the smallest target size whose set has a pattern that describes the block.
use byte_select.Prelude.{
  ℕ, ◌+◌, ◌≤◌, ◌<◌, ◌≡◌, refl, sym, ◌∙◌, arith, true, false, leb, ◌==◌, ◌⊎◌, inl, inr, Bool-cases,
}
use byte_select.Prelude.{
  List, [], ◌∷◌, ◌++◌, length, All, All-get_or, get_or, Result, ok, ◌>>=◌, Option, none, some,
  length-append, append_assoc,
}
use byte_select.Pattern.{Pattern, Block, describes}
use byte_select.Codec.{Model, PatternSet, EncodedBlock, dictionary_size, validate_model}
use byte_select.Codec.Compress.{
  set_at, empty_set, empty_pattern, compress, try_patterns, try_sets, compressed_block, raw_block,
  sort_by_target, indices,
}
use byte_select.Codec.Metadata.{encode_accepts}
use byte_select.Codec.Dictionary.{make_dictionary_lem}
use byte_select.Codec.Sorting.{
  All-sort_by_target, indices-lt, IsOrdered, sort_by_target-IsOrdered, sorted-All, indices-All,
}
use byte_select.Codec.RoundTrip.{count_fits_bits-IsIndex}
use byte_select.Codec.Validity.{IsValidSet, IsSized, SuitsPattern, validate_model_valid}

-- No pattern of the list describes the block.
abbrev Undescribed : Block → List Pattern → Type 0
Undescribed block ps = All (λ (p : Pattern). describes p block ≡ false) ps

-- A call that found no pattern of the list, or filled in a block of the set's target size.
data Tries (block : Block) (s : PatternSet) (ps : List Pattern)
    : Result (Option EncodedBlock) → Type 0 where
  passed : Undescribed block ps → Tries block s ps (ok none)
  took :
      (e : EncodedBlock)
      → e.compressed ≡ true
      → e.allocated_size ≡ s.target_size
      → Tries block s ps (ok (some e))

-- A call that found no pattern of any set in the order, or a block that is not larger than the
-- target of any set with a pattern for it.
data Least (block : Block) (m : Model) (order : List ℕ)
    : Result (Option EncodedBlock) → Type 0 where
  nowhere : All (λ i. Undescribed block (set_at m i).patterns) order → Least block m order (ok none)
  chosen :
      (e : EncodedBlock)
      → e.compressed ≡ true
      → All
          (λ i.
            Undescribed block (set_at m i).patterns ⊎ (e.allocated_size ≤ (set_at m i).target_size))
          order
      → Least block m order (ok (some e))

later_targets :
    (block : Block) (m : Model) (a : ℕ) (e : EncodedBlock) (order : List ℕ)
    → e.allocated_size ≡ (set_at m a).target_size
    → All (λ b. (set_at m a).target_size ≤ (set_at m b).target_size) order
    → All
        (λ i.
          Undescribed block (set_at m i).patterns ⊎ (e.allocated_size ≤ (set_at m i).target_size))
        order
later_targets block m a e [] t h = tt
later_targets block m a e (b ∷ order) t (hb, h) =
    (inr (omega (arith, t, hb)), later_targets block m a e order t h)

Least-or :
    (block : Block) (m : Model) (a : ℕ) (order : List ℕ) (r next : Result (Option EncodedBlock))
    → Tries block (set_at m a) (set_at m a).patterns r
    → All (λ b. (set_at m a).target_size ≤ (set_at m b).target_size) order
    → Least block m order next
    → Least block m (a ∷ order) (r >>= λ found. elim found [ some e ↦ ok (some e) | none ↦ next ])
Least-or block m a order r next (passed u) h (nowhere us) = nowhere (u, us)
Least-or block m a order r next (passed u) h (chosen e c us) = chosen e c (inl u, us)
Least-or block m a order r next (took e c t) h f =
    chosen e c (inr (omega (arith, t)), later_targets block m a e order t h)

module _ (block : Block) (m : Model) (valid : All (IsValidSet m) m.sets) where
  try_patterns-Tries :
      (set_index : ℕ) (before rest : List Pattern)
      → let s = set_at m set_index in
        IsValidSet m s
        → s.patterns ≡ before ++ rest
        → All (SuitsPattern m s) rest
        → Tries block s rest (try_patterns block s set_index (length before) rest)
  unfolding try_patterns compressed_block
  try_patterns-Tries set_index before [] v split suits = passed tt
  try_patterns-Tries set_index before (p ∷ rest) v split ((size_ok, rank_ok), suits) =
      let s = set_at m set_index in
      let onward : Tries block s rest (try_patterns block s set_index (length before + 1) rest) =
        rw (← length-append before (p ∷ [])) (
          try_patterns-Tries set_index (before ++ (p ∷ [])) rest v
            (split ∙ sym (append_assoc before (p ∷ []) rest)) suits) in
      elim (Bool-cases (describes p block)) [
        | inr other ↦
            rw ((make_dictionary_lem block p).1 other, try_patterns)
              (Tries_skip s p rest _ other onward)
        | inl same ↦
            let (d, made, l, e) = (make_dictionary_lem block p).0 same in
            let inside : length before < length s.patterns =
              rw split (omega (arith, length-append before (p ∷ rest))) in
            let accepted =
              encode_accepts s (length before) v.layout
                (count_fits_bits-IsIndex s (length before) v.capacity inside) in
            let small : leb (length d) (dictionary_size s) ≡ true = ground arith in
            rw (made, try_patterns, small, accepted) (took _ refl refl)
      ]
    where
      Tries_skip :
          (s : PatternSet) (p : Pattern) (rest : List Pattern) (r : Result (Option EncodedBlock))
          → describes p block ≡ false
          → Tries block s rest r
          → Tries block s (p ∷ rest) r
      Tries_skip s p rest r other (passed u) = passed (other, u)
      Tries_skip s p rest r other (took e c t) = took e c t

  try_sets-Least :
      (order : List ℕ)
      → All (λ i. i < length m.sets) order
      → IsOrdered m order
      → Least block m order (try_sets block m order)
  unfolding try_sets IsOrdered
  try_sets-Least [] inside ordered = nowhere tt
  try_sets-Least (i ∷ order) (hi, inside) (hs, ordered) =
      let s = set_at m i in
      let v : IsValidSet m s = All-get_or (IsValidSet m) m.sets i empty_set valid hi in
      let roomy : leb s.target_size s.metadata_bytes ≡ false = ground arith in
      rw roomy (
        Least-or block m i order _ _ (try_patterns-Tries i [] s.patterns v refl v.suited) hs
          (try_sets-Least order inside ordered))

-- What the result of `compress` says of a set with a pattern for the block.
Least-compress :
    (block : Block) (m : Model) (order : List ℕ) (r : Result (Option EncodedBlock))
    (e : EncodedBlock)
    → Least block m order r
    → (r >>= λ found. elim found [ some e ↦ ok e | none ↦ ok (raw_block block) ]) ≡ ok e
    → All
        (λ i.
          Undescribed block (set_at m i).patterns
          ⊎ ((e.compressed ≡ true) × (e.allocated_size ≤ (set_at m i).target_size)))
        order
Least-compress block m order r e (nowhere us) h = weaken order us
  where
    weaken :
        (order : List ℕ)
        → All (λ i. Undescribed block (set_at m i).patterns) order
        → All
            (λ i.
              Undescribed block (set_at m i).patterns
              ⊎ ((e.compressed ≡ true) × (e.allocated_size ≤ (set_at m i).target_size)))
            order
    weaken [] us = tt
    weaken (i ∷ order) (u, us) = (inl u, weaken order us)
Least-compress block m order r e (chosen e' c us) h = same order us
  where
    same :
        (order : List ℕ)
        → All
            (λ i.
              Undescribed block (set_at m i).patterns
              ⊎ (e'.allocated_size ≤ (set_at m i).target_size))
            order
        → All
            (λ i.
              Undescribed block (set_at m i).patterns
              ⊎ ((e.compressed ≡ true) × (e.allocated_size ≤ (set_at m i).target_size)))
            order
    same [] us = tt
    same (i ∷ order) (inl u, us) = (inl u, same order us)
    same (i ∷ order) (inr t, us) =
        let equal : e' ≡ e = cc in (inr (rw (← equal) (c, t)), same order us)

-- For a model that `validate_model` accepts, a block of its block size and the encoded block that
-- `compress` returns: when a pattern of some set describes the block, the result is compressed and
-- is allocated no more than the target size of that set.
pub compress_least :
    (block : Block) (m : Model) (e : EncodedBlock) (i j : ℕ)
    → IsSized m
    → validate_model m ≡ ok tt
    → length block ≡ m.block_size
    → compress block m ≡ ok e
    → i < length m.sets
    → j < length (set_at m i).patterns
    → describes (get_or (set_at m i).patterns j empty_pattern) block ≡ true
    → (e.compressed ≡ true) × (e.allocated_size ≤ (set_at m i).target_size)
unfolding compress
compress_least block m e i j sizes accepted sized made hi hj same =
    let valid = validate_model_valid m sizes accepted in
    let order = sort_by_target m (indices 0 (length m.sets)) in
    let inside =
      All-sort_by_target m (λ k. k < length m.sets) (indices 0 (length m.sets))
        (indices-lt 0 (length m.sets) (length m.sets) (omega arith)) in
    let fits : (length block == m.block_size) ≡ true = ground arith in
    let P : ℕ → Type 0 = λ k.
      Undescribed block (set_at m k).patterns
      ⊎ ((e.compressed ≡ true) × (e.allocated_size ≤ (set_at m k).target_size)) in
    let all =
      Least-compress block m order (try_sets block m order) e
        (try_sets-Least block m valid order inside
          (sort_by_target-IsOrdered m (indices 0 (length m.sets))))
        (rw fits at made) in
    elim (indices-All P 0 (length m.sets) i (sorted-All m P (indices 0 (length m.sets)) all)
      (omega arith) (omega arith)) [
        | inr good ↦ good
        | inl u ↦
            let other =
              All-get_or (λ (p : Pattern). describes p block ≡ false) (set_at m i).patterns j
                empty_pattern u hj in
            absurd (ground arith)
      ]
