-- ===== src/Trainer/Greedy.antt =====
-- The loop of `combine_greedily` (src/trainer.cpp) ends where no two patterns can be combined.
use byte_select.Prelude.{ℕ, zero, suc, ◌^◌, ◌≤◌, ◌<◌, ◌≡◌, refl, arith, inl, inr}
use byte_select.Prelude.{List, [], ◌∷◌, length, All, Option-cases, ok}
use byte_select.Pattern.{Pattern}
use byte_select.Trainer.{sort_patterns, combine_loop, combine_greedily}
use byte_select.Trainer.Order.{
  HasSome, sort_patterns-HasSome, sort_patterns-All, length-sort_patterns,
}
use byte_select.Trainer.Combine.{IsCandidate, IsBelow, AreApart, IsMerge, IsPair, find_pair-IsPair}
use byte_select.Trainer.Replace.{IsCover, combine_pair-IsCover}

module _ (n d : ℕ) (small : n < 2 ^ 16) where
  combine_loop-IsCover :
      (fuel : ℕ) (patterns : List Pattern)
      → length patterns ≤ fuel
      → All (IsCandidate n d) patterns
      → (r : List Pattern) × (combine_loop d fuel patterns ≡ ok r)
        × AreApart d r
        × IsCover n d small patterns r
        × (length r ≤ length patterns)
  unfolding combine_loop IsPair AreApart
  combine_loop-IsCover zero [] h good =
      ([], refl, tt, record { good = tt; covers = λ o c. c }, omega arith)
  combine_loop-IsCover zero (p ∷ patterns) h good = absurd (omega arith)
  combine_loop-IsCover (suc fuel) patterns h good =
      let (r, found, pair) = find_pair-IsPair n d small patterns good in
      elim (Option-cases r) [
        | inl nothing ↦ (
          patterns,
          rw (found, nothing) refl,
          rw nothing at pair,
          record { good = good; covers = λ o c. c },
          omega arith,
        )
        | inr ((u, others), hit) ↦
            let merge : IsMerge n d 2 patterns u others = rw hit at pair in
            let (next, combined, cover, fewer) =
              combine_pair-IsCover n d small patterns u others merge in
            let (r', run, done, cover', fewer') =
              combine_loop-IsCover fuel next (omega arith) cover.good in
            (
              r',
              rw (found, hit, combined) run,
              done,
              record { good = cover'.good; covers = λ o c. cover'.covers o (cover.covers o c) },
              omega arith,
            )
      ]

  -- For patterns of one size below 65536, of 16-bit symbols and of ranks that the dictionary holds:
  -- `combine_greedily` returns, after a number of rounds that the number of patterns bounds, a list
  -- that is not longer, in which no two patterns have a least upper bound whose rank the dictionary holds, whose
  -- patterns are again of this kind, and of which one is above any pattern that was below one before.
  pub combine_greedily-IsCover :
      (patterns : List Pattern)
      → All (IsCandidate n d) patterns
      → (r : List Pattern) × (combine_greedily patterns d ≡ ok r)
        × AreApart d r
        × All (IsCandidate n d) r
        × ((o : Pattern) → HasSome (IsBelow o) patterns → HasSome (IsBelow o) r)
        × (length r ≤ length patterns)
  unfolding combine_greedily
  combine_greedily-IsCover patterns good =
      let l = length-sort_patterns patterns in
      let (r, run, done, cover, fewer) =
        combine_loop-IsCover (length patterns) (sort_patterns patterns) (omega arith)
          (sort_patterns-All (IsCandidate n d) patterns good) in
      (
        r,
        run,
        done,
        cover.good,
        λ o c. cover.covers o (sort_patterns-HasSome (IsBelow o) patterns c),
        omega arith,
      )
