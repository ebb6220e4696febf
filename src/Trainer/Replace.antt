-- ===== src/Trainer/Replace.antt =====
-- What follows a pair in `combine_greedily` (src/trainer.cpp): the patterns below the upper bound go, and it
-- is put in.
use byte_select.Prelude.{
  ℕ, ◌+◌, ◌^◌, ◌≤◌, ◌<◌, ◌≡◌, ◌⊎◌, refl, sym, ◌∙◌, ap, arith, Bool-cases, inl, inr,
}
use byte_select.Prelude.{List, [], ◌∷◌, ◌++◌, length, All, ok}
use byte_select.Prelude.{length-append}
use byte_select.Prelude.Slices.{All-append}
use byte_select.Pattern.{Pattern}
use byte_select.Trainer.{symbols_eq, sort_patterns, remove_below, contains_pattern, combine_pair}
use byte_select.Trainer.Order.{
  HasSome, HasSome-append_left, HasSome-append_right, sort_patterns-HasSome, sort_patterns-All,
}
use byte_select.Trainer.Order.{length-sort_patterns, contains_pattern-HasSome, less_equal_ok}
use byte_select.Trainer.Combine.{IsCandidate, IsBelow, IsBelow-trans, IsMerge}

module _ (n d : ℕ) (small : n < 2 ^ 16) where
  -- The patterns that are left when those below `u` are removed.
  IsKept : List Pattern → Pattern → List Pattern → Type 0
  IsKept patterns u kept =
      All (IsCandidate n d) kept
      × (length kept ≤ length patterns)
      × ((o : Pattern) → HasSome (IsBelow o) patterns → IsBelow o u ⊎ HasSome (IsBelow o) kept)

  IsKept-keep :
      (p : Pattern) (patterns : List Pattern) (u : Pattern) (kept : List Pattern)
      → IsCandidate n d p
      → IsKept patterns u kept
      → IsKept (p ∷ patterns) u (p ∷ kept)
  unfolding IsKept HasSome
  IsKept-keep p patterns u kept hp (h, fewer, covers) = (
    (hp, h),
    omega arith,
    λ o c. elim c [
      | inl here ↦ inr (inl here)
      | inr there ↦ elim (covers o there) [ inl up ↦ inl up | inr rest ↦ inr (inr rest) ]
    ],
  )

  remove_below-IsKept :
      (patterns : List Pattern) (u : Pattern)
      → IsCandidate n d u
      → All (IsCandidate n d) patterns
      → (kept : List Pattern) × (remove_below patterns u ≡ ok kept) × IsKept patterns u kept
  unfolding remove_below IsKept HasSome
  remove_below-IsKept [] u hu h = ([], refl, (tt, omega arith, λ o c. inr c))
  remove_below-IsKept (p ∷ patterns) u hu (hp, h) =
      let (kept, left, k) = remove_below-IsKept patterns u hu h in
      elim (Bool-cases (symbols_eq p.symbols u.symbols)) [
        | inl same ↦ (p ∷ kept, rw (same, left) refl, IsKept-keep p patterns u kept hp k)
        | inr other ↦
            let (b, compared) = less_equal_ok p u (hp.size ∙ sym hu.size) in
            elim (Bool-cases b) [
              | inr apart ↦ (
                p ∷ kept,
                rw (other, compared, left, apart) refl,
                IsKept-keep p patterns u kept hp k,
              )
              | inl below ↦
                  let (good, fewer, covers) = k in
                  (
                    kept,
                    rw (other, compared, left, below) refl,
                    (
                      good,
                      omega arith,
                      λ o c. elim c [
                        | inl here ↦ inl (IsBelow-trans o p u here (compared ∙ ap ok below))
                        | inr there ↦ covers o there
                      ],
                    ),
                  )
            ]
      ]

  -- A list that stands for another: its patterns are candidates, and above those of the other.
  pub record IsCover (patterns next : List Pattern) : Type 0 where
    pub good : All (IsCandidate n d) next
    pub covers : (o : Pattern) → HasSome (IsBelow o) patterns → HasSome (IsBelow o) next

  pub combine_pair-IsCover :
      (patterns : List Pattern) (u : Pattern) (others : List Pattern)
      → IsMerge n d 2 patterns u others
      → (next : List Pattern) × (combine_pair u others ≡ ok next)
        × IsCover patterns next
        × (length next + 1 ≤ length patterns)
  unfolding combine_pair IsKept HasSome
  combine_pair-IsCover patterns u others merge =
      let (kept, left, (good, fewer, covers)) =
        remove_below-IsKept others u merge.upper merge.rest in
      let count = merge.fewer in
      let over : (o : Pattern)
          → HasSome (IsBelow o) patterns
          → IsBelow o u ⊎ HasSome (IsBelow o) kept =
        λ o c. elim (merge.covers o c) [ inl up ↦ inl up | inr rest ↦ covers o rest ] in
      elim (Bool-cases (contains_pattern u kept)) [
        | inl there ↦ (
          sort_patterns kept,
          rw (left, there) refl,
          record {
            good = sort_patterns-All (IsCandidate n d) kept good;
            covers = λ o c. sort_patterns-HasSome (IsBelow o) kept (elim (over o c) [
              | inl up ↦ contains_pattern-HasSome (IsBelow o) u kept up there
              | inr rest ↦ rest
            ]);
          },
          omega (arith, length-sort_patterns kept),
        )
        | inr absent ↦ (
          sort_patterns (kept ++ (u ∷ [])),
          rw (left, absent) refl,
          record {
            good =
                sort_patterns-All (IsCandidate n d) (kept ++ (u ∷ []))
                  (All-append (IsCandidate n d) kept (u ∷ []) good (merge.upper, tt));
            covers = λ o c. sort_patterns-HasSome (IsBelow o) (kept ++ (u ∷ [])) (elim (over o c) [
              | inl up ↦ HasSome-append_right (IsBelow o) kept (u ∷ []) (inl up)
              | inr rest ↦ HasSome-append_left (IsBelow o) kept (u ∷ []) rest
            ]);
          },
          omega (arith, length-sort_patterns (kept ++ (u ∷ [])), length-append kept (u ∷ [])),
        )
      ]
