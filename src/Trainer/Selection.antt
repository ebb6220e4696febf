-- ===== src/Trainer/Selection.antt =====
-- The exhaustive selection in `Trainer::train_counts` (src/trainer.cpp): each round takes the candidate that
-- covers the most of what is uncovered. A round takes a candidate away, so their number is fuel enough.
pub mod Marginal
pub mod Candidates
pub mod Exhaustive
use byte_select.Prelude.{ℕ, zero, suc, ◌+◌, ◌%◌, ◌^◌}
use byte_select.Prelude.{
  ◌&&◌, ◌||◌, List, [], ◌∷◌, ◌++◌, length, if◌then◌else◌, ◌==◌, ltb, leb, Result, ok, ◌>>=◌,
}
use byte_select.Pattern.{Pattern, less_equal}
use byte_select.Trainer.{Atom, symbols_lt, symbols_eq, coverage}

-- The patterns and their counts in the result, and `coverage_evaluations` of its statistics.
pub record Selection : Type 0 where
  pub patterns : List Pattern
  pub marginal_counts : List ℕ
  pub coverage_evaluations : ℕ

-- The loop over the candidates behind the first.
unfoldable pub best_candidate : List Atom → Pattern → ℕ → List Pattern → Result (Pattern × ℕ)
best_candidate uncovered best best_count [] = ok (best, best_count)
best_candidate uncovered best best_count (p ∷ candidates) = coverage p uncovered >>= λ count.
    let better =
      ltb best_count count || (count == best_count && symbols_lt p.symbols best.symbols) in
    best_candidate uncovered (if better then p else best) (if better then count else best_count)
      candidates

-- `candidates.erase(best)`: the best stands at its first place.
unfoldable pub erase_pattern : Pattern → List Pattern → List Pattern
erase_pattern p [] = []
erase_pattern p (q ∷ candidates) =
    if symbols_eq q.symbols p.symbols then candidates else q ∷ erase_pattern p candidates

-- The loop that erases the atoms below the selected pattern.
unfoldable pub remove_covered : Pattern → List Atom → Result (List Atom)
remove_covered selected [] = ok []
remove_covered selected (atom ∷ uncovered) = less_equal atom.pattern selected >>= λ below.
    remove_covered selected uncovered >>= λ rest. ok (if below then rest else atom ∷ rest)

unfoldable pub select_loop : ℕ → Selection → List Atom → List Pattern → ℕ → Result Selection
select_loop max_patterns s uncovered candidates zero = ok s
select_loop max_patterns s uncovered [] (suc fuel) = ok s
select_loop max_patterns s uncovered (p ∷ candidates) (suc fuel) =
    if leb max_patterns (length s.patterns)
    then ok s
    else (coverage p uncovered >>= λ count.
        best_candidate uncovered p count candidates >>= λ (best, best_count).
        let evaluations = (s.coverage_evaluations + length (p ∷ candidates)) % 2 ^ 64 in
        if best_count == 0
        then ok (record {
          patterns = s.patterns;
          marginal_counts = s.marginal_counts;
          coverage_evaluations = evaluations;
        })
        else (remove_covered best uncovered >>= λ rest.
            select_loop max_patterns
              (record {
                patterns = s.patterns ++ (best ∷ []);
                marginal_counts = s.marginal_counts ++ (best_count ∷ []);
                coverage_evaluations = evaluations;
              })
              rest (erase_pattern best (p ∷ candidates)) fuel))

unfoldable pub select_exhaustive : ℕ → List Atom → List Pattern → Result Selection
select_exhaustive max_patterns atoms candidates =
    select_loop max_patterns
      (record { patterns = []; marginal_counts = []; coverage_evaluations = 0 }) atoms candidates
      (length candidates)
