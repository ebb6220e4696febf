-- ===== src/Trainer/Examples.antt =====
-- Runs of the training phases on small patterns.
use byte_select.Prelude.{◌≤◌, ◌≡◌, refl, arith, List, [], ◌∷◌, length, All, ok}
use byte_select.Pattern.{Pattern, rank, rank_of}
use byte_select.Trainer.{Atom, combine_greedily}
use byte_select.Trainer.Selection.{Selection, select_exhaustive}
use byte_select.Trainer.Selection.Exhaustive.{IsSelection, select_exhaustive-IsSelection}
use byte_select.Trainer.Order.{HasSome}
use byte_select.Trainer.Combine.{IsCandidate, IsBelow, AreApart}
use byte_select.Trainer.Greedy.{combine_greedily-IsCover}

abbrev pattern_001 : Pattern
pattern_001 = record { symbols = 0 ∷ 0 ∷ 1 ∷ [] }

abbrev pattern_010 : Pattern
pattern_010 = record { symbols = 0 ∷ 1 ∷ 0 ∷ [] }

abbrev pattern_000 : Pattern
pattern_000 = record { symbols = 0 ∷ 0 ∷ 0 ∷ [] }

abbrev candidates : List Pattern
candidates = pattern_001 ∷ pattern_010 ∷ pattern_000 ∷ []

candidates-IsCandidate : All (IsCandidate 3 2) candidates
unfolding rank rank_of
candidates-IsCandidate = (
  record { size = refl; symbols = ground arith; fits = omega arith },
  (
    record { size = refl; symbols = ground arith; fits = omega arith },
    (record { size = refl; symbols = ground arith; fits = omega arith }, tt),
  ),
)

combine_greedily-IsCover_example :
    (r : List Pattern) × (combine_greedily candidates 2 ≡ ok r)
    × AreApart 2 r
    × All (IsCandidate 3 2) r
    × ((o : Pattern) → HasSome (IsBelow o) candidates → HasSome (IsBelow o) r)
    × (length r ≤ 3)
combine_greedily-IsCover_example =
    combine_greedily-IsCover 3 2 (omega arith) candidates candidates-IsCandidate

abbrev atoms : List Atom
atoms =
    record { pattern = pattern_001; count = 5 } ∷ record { pattern = pattern_010; count = 3 } ∷ []

select_exhaustive-IsSelection_example :
    (r : Selection) × (select_exhaustive 2 atoms candidates ≡ ok r)
    × IsSelection 2 atoms candidates r
select_exhaustive-IsSelection_example =
    select_exhaustive-IsSelection 3 2 atoms candidates (refl, (refl, tt)) (refl, (refl, (refl, tt)))
