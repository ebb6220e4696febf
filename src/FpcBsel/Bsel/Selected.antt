-- ===== src/FpcBsel/Bsel/Selected.antt =====
-- What `train_bsel` selects (fpc-bsel/src/bsel.cpp): the patterns of the most blocks, the smaller rank first among
-- those of as many.
use mathlib.Core.Path.{subst}
use mathlib.Core.List.{Memᴰ}
use mathlib.Core.List.Memᴰ
use native.Mathlib.Nat.{zero-add}
use byte_select.Prelude.{
  ℕ, zero, suc, ◌^◌, ◌≤◌, ◌<◌, ◌≡◌, ◌⊎◌, refl, ap, arith, Bool-cases, inl, inr, min,
}
use byte_select.Prelude.{false, ◌||◌, ltb, ◌==◌, List, [], ◌∷◌, length, take, All, ok}
use byte_select.FpcBsel.Bsel.{Pattern, BselModel}
use byte_select.FpcBsel.Bsel.Train.{
  Counted, count_blocks, ranked_before, insert_ranked, sort_ranked, train_bsel, first_size,
}
use byte_select.FpcBsel.Bsel.Trained.{AllCounted, insert_ranked-All, All-take-map, length-take-le}
use byte_select.FpcBsel.Bsel.Keys.{patterns_of, IsLess, not-IsLess, AreRising, AllCounted-Memᴰ}
use byte_select.FpcBsel.Bsel.Counts.{times, IsExact, IsCounted, count_blocks-IsCounted}
use byte_select.FpcBsel.Bsel.Ranking.{
  IsAhead, AreRanked, IsAhead-trans, ranked_before-IsAhead, ranked_before-behind,
}

module _ (f : Pattern → ℕ) where
  -- The same of the entries.
  AreRankedEntries : List Counted → Type 0
  AreRankedEntries [] = Unit {0}
  AreRankedEntries (c ∷ ranked) = AllCounted (IsAhead f c.pattern) ranked × AreRankedEntries ranked

  AllCounted-IsAhead :
      (p q : Pattern) (ranked : List Counted)
      → IsAhead f p q
      → AllCounted (IsAhead f q) ranked
      → AllCounted (IsAhead f p) ranked
  AllCounted-IsAhead p q [] h k = tt
  AllCounted-IsAhead p q (c ∷ ranked) h (kc, k) =
      (IsAhead-trans f p q c.pattern h kc, AllCounted-IsAhead p q ranked h k)

  insert_ranked-AreRanked :
      (c : Counted) (ranked : List Counted)
      → IsExact f c
      → All (IsExact f) ranked
      → AllCounted (λ q. c.pattern ≡ q → ⊥) ranked
      → AreRankedEntries ranked
      → AreRankedEntries (insert_ranked c ranked)
  unfolding insert_ranked AreRankedEntries
  insert_ranked-AreRanked c [] hc h new r = (tt, tt)
  insert_ranked-AreRanked c (d ∷ ranked) hc (hd, h) (nd, new) (rd, r) =
      elim (Bool-cases (ranked_before c d)) [
        | inl before ↦
            let first = ranked_before-IsAhead f c d hc hd before in
            rw before ((first, AllCounted-IsAhead c.pattern d.pattern ranked first rd), (rd, r))
        | inr behind ↦ rw behind (
          insert_ranked-All (IsAhead f d.pattern) c ranked
              (ranked_before-behind f c d hc hd nd behind) rd,
          insert_ranked-AreRanked c ranked hc h new r,
        )
      ]

  insert_ranked-IsExact :
      (c : Counted) (ranked : List Counted)
      → IsExact f c
      → All (IsExact f) ranked
      → All (IsExact f) (insert_ranked c ranked)
  unfolding insert_ranked
  insert_ranked-IsExact c [] hc h = (hc, tt)
  insert_ranked-IsExact c (d ∷ ranked) hc (hd, h) = elim (Bool-cases (ranked_before c d)) [
    | inl before ↦ rw before (hc, (hd, h))
    | inr behind ↦ rw behind (hd, insert_ranked-IsExact c ranked hc h)
  ]

  sort_ranked-IsExact :
      (counts : List Counted) → All (IsExact f) counts → All (IsExact f) (sort_ranked counts)
  unfolding sort_ranked
  sort_ranked-IsExact [] h = tt
  sort_ranked-IsExact (c ∷ counts) (hc, h) =
      insert_ranked-IsExact c (sort_ranked counts) hc (sort_ranked-IsExact counts h)

module _ (P : Pattern → Type 0) where
  -- What all entries have, the sorted ones have.
  sort_ranked-AllCounted :
      (counts : List Counted) → AllCounted P counts → AllCounted P (sort_ranked counts)
  unfolding sort_ranked
  sort_ranked-AllCounted [] h = tt
  sort_ranked-AllCounted (c ∷ counts) (hc, h) =
      insert_ranked-All P c (sort_ranked counts) hc (sort_ranked-AllCounted counts h)

unequal_of_less :
    (p : Pattern) (counts : List Counted)
    → AllCounted (IsLess p) counts
    → AllCounted (λ q. p ≡ q → ⊥) counts
unequal_of_less p [] h = tt
unequal_of_less p (c ∷ counts) (hc, h) =
    (λ e. not-IsLess p (rw (← e) at hc), unequal_of_less p counts h)

sort_ranked-AreRanked :
    (f : Pattern → ℕ) (counts : List Counted)
    → AreRising counts
    → All (IsExact f) counts
    → AreRankedEntries f (sort_ranked counts)
unfolding sort_ranked AreRising AreRankedEntries
sort_ranked-AreRanked f [] r h = tt
sort_ranked-AreRanked f (c ∷ counts) (rc, r) (hc, h) =
    insert_ranked-AreRanked f c (sort_ranked counts) hc (sort_ranked-IsExact f counts h)
      (sort_ranked-AllCounted (λ q. c.pattern ≡ q → ⊥) counts (unequal_of_less c.pattern counts rc))
      (sort_ranked-AreRanked f counts r h)

insert_ranked-Memᴰ :
    (q : Pattern) (c : Counted) (ranked : List Counted)
    → (q ≡ c.pattern) ⊎ Memᴰ q (patterns_of ranked)
    → Memᴰ q (patterns_of (insert_ranked c ranked))
unfolding insert_ranked
insert_ranked-Memᴰ q c [] (inl e) = Memᴰ.head e
insert_ranked-Memᴰ q c [] (inr k) = absurd (Memᴰ.not-nil k)
insert_ranked-Memᴰ q c (d ∷ ranked) h = elim (Bool-cases (ranked_before c d)) [
  | inl before ↦ rw before (elim h [ inl e ↦ Memᴰ.head e | inr k ↦ Memᴰ.tail k ])
  | inr behind ↦ rw behind (elim h [
    | inl e ↦ Memᴰ.tail (insert_ranked-Memᴰ q c ranked (inl e))
    | inr k ↦ elim (Memᴰ.cases_cons k) [
      | inl e ↦ Memᴰ.head e
      | inr later ↦ Memᴰ.tail (insert_ranked-Memᴰ q c ranked (inr later))
    ]
  ])
]

sort_ranked-Memᴰ :
    (q : Pattern) (counts : List Counted)
    → Memᴰ q (patterns_of counts)
    → Memᴰ q (patterns_of (sort_ranked counts))
unfolding sort_ranked
sort_ranked-Memᴰ q [] k = k
sort_ranked-Memᴰ q (c ∷ counts) k =
    insert_ranked-Memᴰ q c (sort_ranked counts) (elim (Memᴰ.cases_cons k) [
      | inl e ↦ inl e
      | inr later ↦ inr (sort_ranked-Memᴰ q counts later)
    ])

take-AreRanked :
    (f : Pattern → ℕ) (k : ℕ) (ranked : List Counted)
    → AreRankedEntries f ranked
    → AreRanked f (take k (patterns_of ranked))
unfolding AreRanked AreRankedEntries
take-AreRanked f zero ranked r = tt
take-AreRanked f (suc k) [] r = tt
take-AreRanked f (suc k) (c ∷ ranked) (rc, r) =
    (All-take-map (IsAhead f c.pattern) k ranked rc, take-AreRanked f k ranked r)

-- A pattern that is not among the first `k` is behind all of them.
take-Memᴰ :
    (f : Pattern → ℕ) (k : ℕ) (ranked : List Counted) (q : Pattern)
    → AreRankedEntries f ranked
    → Memᴰ q (patterns_of ranked)
    → Memᴰ q (take k (patterns_of ranked))
      ⊎ ((length (take k (patterns_of ranked)) ≡ k)
          × (k < length ranked)
          × All (λ p. IsAhead f p q) (take k (patterns_of ranked)))
unfolding AreRankedEntries
take-Memᴰ f k [] q r there = absurd (Memᴰ.not-nil there)
take-Memᴰ f zero (c ∷ ranked) q r there = inr (refl, omega arith, tt)
take-Memᴰ f (suc k) (c ∷ ranked) q (rc, r) there = elim (Memᴰ.cases_cons there) [
  | inl e ↦ inl (Memᴰ.head e)
  | inr later ↦ elim (take-Memᴰ f k ranked q r later) [
    | inl taken ↦ inl (Memᴰ.tail taken)
    | inr (full, more, ahead) ↦
        inr (
          ap suc full,
          omega arith,
          (AllCounted-Memᴰ (IsAhead f c.pattern) ranked q rc later, ahead),
        )
  ]
]

-- The patterns of the most blocks, `max_patterns` at most, in their order.
pub record IsBest (n max_patterns : ℕ) (blocks : List (List ℕ)) (m : BselModel) : Type 0 where
  pub size : m.block_size ≡ n
  pub few : length m.patterns ≤ max_patterns
  pub occurs : All (λ p. 0 < times p blocks) m.patterns
  pub ranked : AreRanked (λ p. times p blocks) m.patterns
  pub complete :
      (q : Pattern)
      → 0 < times q blocks
      → Memᴰ q m.patterns
        ⊎ ((length m.patterns ≡ max_patterns)
            × All (λ p. IsAhead (λ p'. times p' blocks) p q) m.patterns)

occurs_of_exact :
    (f : Pattern → ℕ) (counts : List Counted)
    → All (IsExact f) counts
    → AllCounted (λ p. 0 < f p) counts
occurs_of_exact f [] h = tt
occurs_of_exact f (c ∷ counts) ((e, some), h) = (omega arith, occurs_of_exact f counts h)

count_each :
    (n : ℕ) (blocks : List (List ℕ))
    → 0 < n
    → All (λ (b : List ℕ). length b ≡ n) blocks
    → length blocks < 2 ^ 64
    → (r : List Counted) × (count_blocks n [] blocks ≡ ok r) × IsCounted (λ q. times q blocks) r
unfolding AreRising
count_each n blocks more sized small =
    let (r, e, k) =
      count_blocks-IsCounted n (λ q. 0) [] blocks more sized (λ q. omega arith)
        (record { rising = tt; exact = tt; complete = λ q some. absurd (omega arith) }) in
    (r, e, subst (λ g. IsCounted g r) (λ i q. zero-add (times q blocks) i) k)

-- Training on fewer than 2 ^ 64 blocks of one size that is not 0, with 1 to 65535 patterns, returns a model of
-- simplest patterns of these blocks, `max_patterns` at most. Each is ahead of the next: it is the simplest pattern of
-- more blocks, or of as many and has the smaller rank, or the same rank and the smaller symbols. The simplest pattern
-- of a block is in the model, or the model has `max_patterns` patterns, all ahead of it.
pub train_bsel-IsBest :
    (blocks : List (List ℕ)) (n max_patterns : ℕ)
    → 0 < length blocks
    → length blocks < 2 ^ 64
    → 0 < n
    → All (λ (b : List ℕ). length b ≡ n) blocks
    → 0 < max_patterns
    → max_patterns ≤ 65535
    → (m : BselModel) × (train_bsel blocks max_patterns ≡ ok m) × IsBest n max_patterns blocks m
unfolding train_bsel first_size
train_bsel-IsBest [] n max h small hn sized low high = absurd (omega arith)
train_bsel-IsBest (b ∷ blocks) n max h small hn (size, sized) low high =
    let valid : (length (b ∷ blocks) == 0 || (max == 0 || ltb 65535 max)) ≡ false = ground arith in
    let all = b ∷ blocks in
    let f : Pattern → ℕ = λ q. times q all in
    let (r, e, k) = count_each (length b) all (omega arith) (refl, rw (← size) at sized) small in
    let ranked = sort_ranked r in
    let count = min max (length ranked) in
    let order = sort_ranked-AreRanked f r k.rising k.exact in
    (
      record { block_size = length b; patterns = take count (patterns_of ranked) },
      rw (valid, e) refl,
      record {
        size = size;
        few = omega (arith, length-take-le count (patterns_of ranked));
        occurs =
            All-take-map (λ p. 0 < f p) count ranked
              (occurs_of_exact f ranked (sort_ranked-IsExact f r k.exact));
        ranked = take-AreRanked f count ranked order;
        complete = λ q some.
            elim (take-Memᴰ f count ranked q order (sort_ranked-Memᴰ q r (k.complete q some))) [
              | inl taken ↦ inl taken
              | inr (full, more, ahead) ↦ inr (omega arith, ahead)
            ];
      },
    )
