-- ===== src/Trainer/Selection/Exhaustive.antt =====
-- The exhaustive selection of src/trainer.cpp takes, in each round, a candidate that covers the most anew.
use mathlib.Core.List.{Memᴰ}
use mathlib.Core.List.Memᴰ
use byte_select.Prelude.{
  ℕ, zero, suc, ◌+◌, ◌%◌, ◌^◌, ◌≤◌, ◌<◌, ◌≡◌, ◌⊎◌, refl, sym, ◌∙◌, arith, Bool-cases, inl, inr,
}
use byte_select.Prelude.{
  List, [], ◌∷◌, ◌++◌, length, ◌==◌, leb, ok, append_assoc, append-nil, length-append,
}
use byte_select.Pattern.{Pattern}
use byte_select.Trainer.{Atom}
use byte_select.Trainer.Selection.{Selection, erase_pattern, select_loop, select_exhaustive}
use byte_select.Trainer.Selection.Marginal.{
  newly_covered, marginal, left_over, left_over_all, newly_covered-selected, newly_covered-le,
}
use byte_select.Trainer.Selection.Marginal.{
  AreAtoms, ArePatterns, coverage-left_over, remove_covered-left_over,
}
use byte_select.Trainer.Selection.Candidates.{
  length-erase_pattern, erase_pattern-Memᴰ, erase_pattern-kept, best_candidate-most,
}

-- Patterns with their counts, selected one by one behind those before: each is a candidate, its count is not 0 and is
-- that of the atoms that it newly covers, and no candidate covers more anew.
unfoldable pub IsGreedy : List Atom → List Pattern → List Pattern → List Pattern → List ℕ → Type 0
IsGreedy atoms all before [] [] = Unit {0}
IsGreedy atoms all before [] (c ∷ counts) = ⊥
IsGreedy atoms all before (p ∷ patterns) [] = ⊥
IsGreedy atoms all before (p ∷ patterns) (c ∷ counts) =
    Memᴰ p all
    × (c ≡ marginal atoms before p)
    × (0 < c)
    × ((q : Pattern) → Memᴰ q all → marginal atoms before q ≤ c)
    × IsGreedy atoms all (before ++ (p ∷ [])) patterns counts

-- A greedy selection, which ends when it has as many patterns as asked for or when no candidate covers any more.
pub record IsSelection (max_patterns : ℕ) (atoms : List Atom) (candidates : List Pattern)
    (r : Selection) : Type 0 where
  pub few : length r.patterns ≤ max_patterns
  pub greedy : IsGreedy atoms candidates [] r.patterns r.marginal_counts
  pub full :
      (length r.patterns ≡ max_patterns)
      ⊎ ((q : Pattern) → Memᴰ q candidates → marginal atoms r.patterns q ≡ 0)

-- The result of the loop behind a selection of `before`.
record IsRun (max_patterns : ℕ) (atoms : List Atom) (all before : List Pattern) (counts : List ℕ)
    (r : Selection) : Type 0 where
  later : List Pattern
  later_counts : List ℕ
  patterns : r.patterns ≡ before ++ later
  marginal_counts : r.marginal_counts ≡ counts ++ later_counts
  greedy : IsGreedy atoms all before later later_counts
  few : length r.patterns ≤ max_patterns
  full :
      (length r.patterns ≡ max_patterns)
      ⊎ ((q : Pattern) → Memᴰ q all → marginal atoms r.patterns q ≡ 0)

abbrev selected : List Pattern → List ℕ → ℕ → Selection
selected patterns counts evaluations = record {
  patterns = patterns;
  marginal_counts = counts;
  coverage_evaluations = evaluations;
}

module _ (n m : ℕ) (atoms : List Atom) (sized : AreAtoms n atoms) (all : List Pattern)
    (fit : (q : Pattern) → Memᴰ q all → length q.symbols ≡ n) where
  -- A run that selects nothing more.
  IsRun-stop :
      (before : List Pattern) (counts : List ℕ) (evaluations : ℕ)
      → length before ≤ m
      → (length before ≡ m) ⊎ ((q : Pattern) → Memᴰ q all → marginal atoms before q ≡ 0)
      → IsRun m atoms all before counts (selected before counts evaluations)
  unfolding IsGreedy
  IsRun-stop before counts evaluations few full = record {
    later = [];
    later_counts = [];
    patterns = sym (append-nil before);
    marginal_counts = sym (append-nil counts);
    greedy = tt;
    few = few;
    full = full;
  }

  -- What is no candidate any more covers nothing anew.
  abbrev IsRest : List Pattern → List Pattern → Type 0
  IsRest before candidates =
      (q : Pattern) → Memᴰ q all → Memᴰ q candidates ⊎ (newly_covered before q atoms ≡ 0)

  IsRest-erase :
      (before : List Pattern) (p : Pattern) (candidates : List Pattern)
      → IsRest before candidates
      → IsRest (before ++ (p ∷ [])) (erase_pattern p candidates)
  IsRest-erase before p candidates rest q here =
      let less = newly_covered-le before p q atoms in
      elim (rest q here) [
        | inr nothing ↦ inr (omega arith)
        | inl there ↦ elim (erase_pattern-Memᴰ p q candidates there) [
          | inl same ↦ inr (rw same (newly_covered-selected before p atoms))
          | inr kept ↦ inl kept
        ]
      ]

  done :
      (before : List Pattern)
      → IsRest before []
      → (q : Pattern) → Memᴰ q all
      → marginal atoms before q ≡ 0
  done before rest q here = elim (rest q here) [
    | inl there ↦ absurd (Memᴰ.not-nil there)
    | inr none ↦ omega arith
  ]

  -- A run behind one more pattern.
  IsRun-more :
      (before : List Pattern) (counts : List ℕ) (p : Pattern) (r : Selection)
      → Memᴰ p all
      → 0 < marginal atoms before p
      → ((q : Pattern) → Memᴰ q all → marginal atoms before q ≤ marginal atoms before p)
      → IsRun m atoms all (before ++ (p ∷ [])) (counts ++ (marginal atoms before p ∷ [])) r
      → IsRun m atoms all before counts r
  unfolding IsGreedy
  IsRun-more before counts p r here some most run = record {
    later = p ∷ run.later;
    later_counts = marginal atoms before p ∷ run.later_counts;
    patterns = run.patterns ∙ append_assoc before (p ∷ []) run.later;
    marginal_counts =
        run.marginal_counts ∙ append_assoc counts (marginal atoms before p ∷ []) run.later_counts;
    greedy = (here, refl, some, most, run.greedy);
    few = run.few;
    full = run.full;
  }

  select_loop-IsRun :
      (before : List Pattern) (counts : List ℕ) (evaluations : ℕ) (candidates : List Pattern)
      (fuel : ℕ)
      → length candidates ≤ fuel
      → length before ≤ m
      → ((q : Pattern) → Memᴰ q candidates → Memᴰ q all)
      → IsRest before candidates
      → (r : Selection) × (select_loop m
            (selected before counts evaluations)
            (left_over before atoms)
            candidates
            fuel
          ≡ ok r)
        × IsRun m atoms all before counts r
  unfolding select_loop
  select_loop-IsRun before counts e [] zero enough few inside rest =
      (selected before counts e, refl, IsRun-stop before counts e few (inr (done before rest)))
  select_loop-IsRun before counts e (p ∷ candidates) zero enough few inside rest =
      absurd (omega arith)
  select_loop-IsRun before counts e [] (suc fuel) enough few inside rest =
      (selected before counts e, refl, IsRun-stop before counts e few (inr (done before rest)))
  select_loop-IsRun before counts e (p ∷ candidates) (suc fuel) enough few inside rest =
      let counted = coverage-left_over n p before atoms (fit p (inside p (Memᴰ.head refl))) sized in
      let (best, run, from, most) =
        best_candidate-most n atoms sized all fit before p candidates
          (λ q k. inside q (Memᴰ.tail k)) in
      let e' = (e + length (p ∷ candidates)) % 2 ^ 64 in
      elim (Bool-cases (leb m (length before))) [
        | inl full ↦ (
          selected before counts e,
          rw full refl,
          IsRun-stop before counts e few (inl (ground arith)),
        )
        | inr room ↦ elim (Bool-cases (marginal atoms before best == 0)) [
          | inl nothing ↦ (
            selected before counts e',
            rw (room, counted, run, nothing) refl,
            IsRun-stop before counts e' few (
                inr (λ q k. elim (rest q k) [
                  | inl there ↦ ground (arith, most q there)
                  | inr none ↦ omega arith
                ])),
          )
          | inr something ↦
              let here = inside best from in
              let removed = remove_covered-left_over n best before atoms (fit best here) sized in
              let c = marginal atoms before best in
              let smaller = length-erase_pattern best (p ∷ candidates) from in
              let (r, next, behind) =
                select_loop-IsRun (before ++ (best ∷ [])) (counts ++ (c ∷ [])) e'
                  (erase_pattern best (p ∷ candidates)) fuel (omega arith)
                  (ground (arith, length-append before (best ∷ [])))
                  (λ q k. inside q (erase_pattern-kept best q (p ∷ candidates) k))
                  (IsRest-erase before best (p ∷ candidates) rest) in
              (
                r,
                rw (room, counted, run, something, removed) next,
                IsRun-more before counts best r here (ground arith)
                    (λ q k. elim (rest q k) [ inl there ↦ most q there | inr none ↦ omega arith ])
                    behind,
              )
        ]
      ]

ArePatterns-Memᴰ :
    (n : ℕ) (candidates : List Pattern)
    → ArePatterns n candidates
    → (q : Pattern) → Memᴰ q candidates
    → length q.symbols ≡ n
ArePatterns-Memᴰ n [] h q k = absurd (Memᴰ.not-nil k)
ArePatterns-Memᴰ n (p ∷ candidates) (hp, h) q k = elim (Memᴰ.cases_cons k) [
  | inl same ↦ rw same hp
  | inr later ↦ ArePatterns-Memᴰ n candidates h q later
]

-- For atoms and candidates of n symbols, `select_exhaustive` throws nothing and selects greedily: each selected pattern
-- is a candidate, its count is the sum on 64 bits, not 0, of the counts of the atoms that are below it and below none of
-- the patterns selected before, and no candidate has a greater one there. It selects as many patterns as asked for at
-- most, and ends with fewer only when every candidate has the sum 0 behind them.
pub select_exhaustive-IsSelection :
    (n max_patterns : ℕ) (atoms : List Atom) (candidates : List Pattern)
    → AreAtoms n atoms
    → ArePatterns n candidates
    → (r : Selection) × (select_exhaustive max_patterns atoms candidates ≡ ok r)
      × IsSelection max_patterns atoms candidates r
unfolding select_exhaustive
select_exhaustive-IsSelection n m atoms candidates sized fit =
    let (r, run, w) =
      select_loop-IsRun n m atoms sized candidates (ArePatterns-Memᴰ n candidates fit) [] [] 0
        candidates (length candidates) (omega arith) (omega arith) (λ q k. k) (λ q k. inl k) in
    (
      r,
      rw (left_over_all atoms) at run,
      record { few = w.few; greedy = rw (w.patterns, w.marginal_counts) w.greedy; full = w.full },
    )
