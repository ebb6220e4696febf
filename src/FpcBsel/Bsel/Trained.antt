-- ===== src/FpcBsel/Bsel/Trained.antt =====
-- What `train_bsel` makes (fpc-bsel/src/bsel.cpp): a model that fits the blocks.
use byte_select.Prelude.{ℕ, zero, suc, ◌+◌, min, ◌≤◌, ◌<◌, ◌≡◌, refl, sym, ◌∙◌, ap, arith}
use byte_select.Prelude.{Bool-cases, inl, inr, true, false, ◌||◌, ltb, ◌==◌}
use byte_select.Prelude.{List, [], ◌∷◌, map, length, take, All, Option-cases, some}
use byte_select.Prelude.{ok, Table, empty_table, update}
use byte_select.Word.Load.{IsByte}
use byte_select.FpcBsel.Bsel.{Pattern, BselModel, simplest_loop, simplest_pattern}
use byte_select.FpcBsel.Bsel.RoundTrip.{IsModel}
use byte_select.FpcBsel.Bsel.Train.{
  Counted, bytes_lt, count_pattern, count_blocks, ranked_before, insert_ranked, sort_ranked,
}
use byte_select.FpcBsel.Bsel.Train.{first_size, train_bsel}

-- A pattern for blocks of `n` bytes, whose symbols are bytes.
abbrev pub IsPatternOf : ℕ → Pattern → Type 0
IsPatternOf n p = (length p.symbols ≡ n) × All IsByte p.symbols

pub simplest_loop-IsPatternOf :
    (table : Table) (next : ℕ) (block : List ℕ)
    → (length (simplest_loop table next block) ≡ length block)
      × All IsByte (simplest_loop table next block)
unfolding simplest_loop
simplest_loop-IsPatternOf table next [] = (refl, tt)
simplest_loop-IsPatternOf table next (value ∷ block) = elim (Option-cases (table value)) [
  | inl new ↦
      let (l, h) = simplest_loop-IsPatternOf (update table value (some next)) (next + 1) block in
      (rw (new, length) (ap suc l), rw (new, All) (omega arith, h))
  | inr (s, old) ↦
      let (l, h) = simplest_loop-IsPatternOf table next block in
      (rw (old, length) (ap suc l), rw (old, All) (omega arith, h))
]

pub simplest_pattern-IsPatternOf :
    (block : List ℕ)
    → 0 < length block
    → (p : Pattern) × (simplest_pattern block ≡ ok p) × IsPatternOf (length block) p
unfolding simplest_pattern
simplest_pattern-IsPatternOf block more =
    let full : (length block == 0) ≡ false = ground arith in
    (
      record { symbols = simplest_loop empty_table 0 block },
      rw full refl,
      simplest_loop-IsPatternOf empty_table 0 block,
    )

-- A property of patterns, of all the entries.
module _ (P : Pattern → Type 0) where
  abbrev pub AllCounted : List Counted → Type 0
  AllCounted counts = All (λ (c : Counted). P c.pattern) counts

  pub count_pattern-All :
      (p : Pattern) (counts : List Counted)
      → P p
      → AllCounted counts
      → AllCounted (count_pattern p counts)
  unfolding count_pattern
  count_pattern-All p [] hp h = (hp, tt)
  count_pattern-All p (c ∷ counts) hp (hc, h) =
      elim (Bool-cases (bytes_lt c.pattern.symbols p.symbols)) [
        | inl behind ↦ rw behind (hc, count_pattern-All p counts hp h)
        | inr not_behind ↦ rw not_behind (elim (Bool-cases (bytes_lt p.symbols c.pattern.symbols)) [
          | inl before ↦ rw before (hp, (hc, h))
          | inr same ↦ rw same (hp, h)
        ])
      ]

  pub insert_ranked-All :
      (c : Counted) (ranked : List Counted)
      → P c.pattern
      → AllCounted ranked
      → AllCounted (insert_ranked c ranked)
  unfolding insert_ranked
  insert_ranked-All c [] hc h = (hc, tt)
  insert_ranked-All c (d ∷ ranked) hc (hd, h) = elim (Bool-cases (ranked_before c d)) [
    | inl before ↦ rw before (hc, (hd, h))
    | inr behind ↦ rw behind (hd, insert_ranked-All c ranked hc h)
  ]

  sort_ranked-All : (counts : List Counted) → AllCounted counts → AllCounted (sort_ranked counts)
  unfolding sort_ranked
  sort_ranked-All [] h = tt
  sort_ranked-All (c ∷ counts) (hc, h) =
      insert_ranked-All c (sort_ranked counts) hc (sort_ranked-All counts h)

  pub All-take-map :
      (n : ℕ) (counts : List Counted)
      → AllCounted counts
      → All P (take n (map (λ (c : Counted). c.pattern) counts))
  All-take-map zero counts h = tt
  All-take-map (suc n) [] h = tt
  All-take-map (suc n) (c ∷ counts) (hc, h) = (hc, All-take-map n counts h)

count_blocks-All :
    (n : ℕ) (counts : List Counted) (blocks : List (List ℕ))
    → 0 < n
    → All (λ (b : List ℕ). length b ≡ n) blocks
    → AllCounted (IsPatternOf n) counts
    → (r : List Counted) × (count_blocks n counts blocks ≡ ok r) × AllCounted (IsPatternOf n) r
unfolding count_blocks
count_blocks-All n counts [] more sized h = (counts, refl, h)
count_blocks-All n counts (b ∷ blocks) more (size, sized) h =
    let same : (length b == n) ≡ true = ground arith in
    let (p, made, v) = simplest_pattern-IsPatternOf b (omega arith) in
    let (r, e, k) =
      count_blocks-All n (count_pattern p counts) blocks more sized
        (count_pattern-All (IsPatternOf n) p counts (rw size at v) h) in
    (r, rw (same, made) e, k)

-- A model of at most `max_patterns` patterns, for blocks of `n` bytes.
pub record IsTrained (n max_patterns : ℕ) (m : BselModel) : Type 0 where
  pub size : m.block_size ≡ n
  pub few : length m.patterns ≤ max_patterns
  pub patterns : All (IsPatternOf n) m.patterns

pub length-take-le : (n : ℕ) (ps : List Pattern) → length (take n ps) ≤ n
length-take-le zero ps = omega arith
length-take-le (suc n) [] = omega arith
length-take-le (suc n) (p ∷ ps) = omega (arith, length-take-le n ps)

-- Training on blocks of one size that is not 0, with 1 to 65535 patterns, returns a model of at most
-- so many patterns, each for blocks of this size.
pub train_bsel-IsTrained :
    (blocks : List (List ℕ)) (n max_patterns : ℕ)
    → 0 < length blocks
    → 0 < n
    → All (λ (b : List ℕ). length b ≡ n) blocks
    → 0 < max_patterns
    → max_patterns ≤ 65535
    → (m : BselModel) × (train_bsel blocks max_patterns ≡ ok m) × IsTrained n max_patterns m
unfolding train_bsel first_size
train_bsel-IsTrained [] n max h hn sized low high = absurd (omega arith)
train_bsel-IsTrained (b ∷ blocks) n max h hn (size, sized) low high =
    let valid : (length (b ∷ blocks) == 0 || (max == 0 || ltb 65535 max)) ≡ false = ground arith in
    let (r, e, k) =
      count_blocks-All (length b) [] (b ∷ blocks) (omega arith) (refl, rw (← size) at sized) tt in
    let ranked = sort_ranked r in
    (
      record {
        block_size = length b;
        patterns = take (min max (length ranked)) (map (λ (c : Counted). c.pattern) ranked);
      },
      rw (valid, e) refl,
      record {
        size = size;
        few = omega (
          arith,
          length-take-le (min max (length ranked)) (map (λ (c : Counted). c.pattern) ranked),
        );
        patterns = rw (← size) (
            All-take-map (IsPatternOf (length b)) (min max (length ranked)) ranked
              (sort_ranked-All (IsPatternOf (length b)) r k));
      },
    )

pub IsTrained-IsModel :
    (n max_patterns : ℕ) (m : BselModel)
    → max_patterns ≤ 65535
    → IsTrained n max_patterns m
    → IsModel m
IsTrained-IsModel n max m high t = record {
  few = omega (arith, t.few);
  sized = sizes m.patterns t.patterns;
}
  where
    sizes :
        (ps : List Pattern)
        → All (IsPatternOf n) ps
        → All (λ (p : Pattern). length p.symbols ≡ m.block_size) ps
    sizes [] h = tt
    sizes (p ∷ ps) ((l, b), h) = (l ∙ sym t.size, sizes ps h)
