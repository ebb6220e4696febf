-- ===== src/FpcBsel/Bsel/Ranking.antt =====
-- The order of the patterns in `train_bsel` (fpc-bsel/src/bsel.cpp), and that its comparison decides it.
use byte_select.Prelude.{ℕ, ◌<◌, ◌≡◌, ◌⊎◌, arith, Bool-cases, inl, inr}
use byte_select.Prelude.{true, false, ◌==◌, List, [], ◌∷◌, All}
use byte_select.FpcBsel.Bsel.{Pattern, rank}
use byte_select.FpcBsel.Bsel.Train.{Counted, bytes_lt, ranked_before}
use byte_select.FpcBsel.Bsel.Keys.{pattern_path, bytes_lt_trans, bytes_lt-neither}
use byte_select.FpcBsel.Bsel.Counts.{IsExact}

-- One pattern is ahead of another: it counts more, or as much with a smaller rank, or with the same rank and smaller
-- symbols.
abbrev pub IsAhead : (Pattern → ℕ) → Pattern → Pattern → Type 0
IsAhead f p q =
    (f q < f p)
    ⊎ ((f p ≡ f q)
        × ((rank p < rank q) ⊎ ((rank p ≡ rank q) × (bytes_lt p.symbols q.symbols ≡ true))))

-- Each pattern of the list is ahead of those behind it.
unfoldable pub AreRanked : (Pattern → ℕ) → List Pattern → Type 0
AreRanked f [] = Unit {0}
AreRanked f (p ∷ patterns) = All (IsAhead f p) patterns × AreRanked f patterns

module _ (f : Pattern → ℕ) where
  pub IsAhead-trans : (p q r : Pattern) → IsAhead f p q → IsAhead f q r → IsAhead f p r
  IsAhead-trans p q r (inl h) (inl k) = inl (omega arith)
  IsAhead-trans p q r (inl h) (inr (e, k)) = inl (omega arith)
  IsAhead-trans p q r (inr (e, h)) (inl k) = inl (omega arith)
  IsAhead-trans p q r (inr (e, inl h)) (inr (e', inl k)) = inr (omega arith, inl (omega arith))
  IsAhead-trans p q r (inr (e, inl h)) (inr (e', inr (s, k))) = inr (omega arith, inl (omega arith))
  IsAhead-trans p q r (inr (e, inr (s, h))) (inr (e', inl k)) = inr (omega arith, inl (omega arith))
  IsAhead-trans p q r (inr (e, inr (s, h))) (inr (e', inr (s', k))) =
      inr (omega arith, inr (omega arith, bytes_lt_trans p.symbols q.symbols r.symbols h k))

  -- The comparison of the sort, for entries of other patterns.
  pub ranked_before-IsAhead :
      (c d : Counted)
      → IsExact f c
      → IsExact f d
      → ranked_before c d ≡ true
      → IsAhead f c.pattern d.pattern
  unfolding ranked_before
  ranked_before-IsAhead c d hc hd before = elim (Bool-cases (c.count == d.count)) [
    | inr other ↦ inl (ground (arith, rw other at before))
    | inl same ↦ elim (Bool-cases (rank c.pattern == rank d.pattern)) [
      | inr unlike ↦ inr (ground arith, inl (ground (arith, rw (same, unlike) at before)))
      | inl alike ↦ inr (ground arith, inr (ground arith, rw (same, alike) at before))
    ]
  ]

  pub ranked_before-behind :
      (c d : Counted)
      → IsExact f c
      → IsExact f d
      → (c.pattern ≡ d.pattern → ⊥)
      → ranked_before c d ≡ false
      → IsAhead f d.pattern c.pattern
  unfolding ranked_before
  ranked_before-behind c d hc hd unequal behind = elim (Bool-cases (c.count == d.count)) [
    | inr other ↦ inl (ground (arith, rw other at behind))
    | inl same ↦ elim (Bool-cases (rank c.pattern == rank d.pattern)) [
      | inr unlike ↦ inr (ground arith, inl (ground (arith, rw (same, unlike) at behind)))
      | inl alike ↦
          let no : bytes_lt c.pattern.symbols d.pattern.symbols ≡ false =
            rw (same, alike) at behind in
          inr (
            ground arith,
            inr (
              ground arith,
              elim (Bool-cases (bytes_lt d.pattern.symbols c.pattern.symbols)) [
                | inl less ↦ less
                | inr neither ↦ absurd (
                    unequal (
                      pattern_path c.pattern d.pattern
                        (bytes_lt-neither c.pattern.symbols d.pattern.symbols no neither)))
              ],
            ),
          )
    ]
  ]
