-- ===== src/Trainer.antt =====
-- The training of pattern sets (src/trainer.cpp): the phases of `Trainer::train_counts` up to the greedy
-- combination, and the exhaustive selection. The unordered_map of counts is the list of its entries, in
-- the order in which they were put there; the results do not hang on it, as the candidates are sorted.
pub mod Order
pub mod Combine
pub mod Replace
pub mod Greedy
pub mod Selection
mod Examples
use byte_select.Prelude.{ℕ, zero, suc, ◌+◌, ◌%◌, ◌^◌, Bool, true, false, not, ◌&&◌, ◌||◌}
use byte_select.Prelude.{
  List, [], ◌∷◌, ◌++◌, map, length, Option, none, some, if◌then◌else◌, ◌==◌, ltb, leb,
}
use byte_select.Prelude.{Result, ok, ◌>>=◌, ◌>>◌, throw_if, invalid_argument}
use byte_select.Pattern.{Pattern, less_equal, least_upper_bound, rank}

-- An entry of a `CountMap`.
pub record Atom : Type 0 where
  pub pattern : Pattern
  pub count : ℕ

unfoldable pub symbols_lt : List ℕ → List ℕ → Bool
symbols_lt xs [] = false
symbols_lt [] (y ∷ ys) = true
symbols_lt (x ∷ xs) (y ∷ ys) = ltb x y || (x == y && symbols_lt xs ys)

unfoldable pub symbols_eq : List ℕ → List ℕ → Bool
symbols_eq [] [] = true
symbols_eq [] (y ∷ ys) = false
symbols_eq (x ∷ xs) [] = false
symbols_eq (x ∷ xs) (y ∷ ys) = x == y && symbols_eq xs ys

unfoldable pub insert_pattern : Pattern → List Pattern → List Pattern
insert_pattern p [] = p ∷ []
insert_pattern p (q ∷ patterns) =
    if symbols_lt q.symbols p.symbols then q ∷ insert_pattern p patterns else p ∷ q ∷ patterns

-- `std::sort` by `operator<`: patterns that are not ordered are equal, so there is one sorted order.
unfoldable pub sort_patterns : List Pattern → List Pattern
sort_patterns [] = []
sort_patterns (p ∷ patterns) = insert_pattern p (sort_patterns patterns)

-- The loop of `coverage`, on top of `total`.
unfoldable pub coverage_loop : Pattern → ℕ → List Atom → Result ℕ
coverage_loop p total [] = ok total
coverage_loop p total (atom ∷ atoms) = less_equal atom.pattern p >>= λ below.
    coverage_loop p (if below then (total + atom.count) % 2 ^ 64 else total) atoms

unfoldable pub coverage : Pattern → List Atom → Result ℕ
coverage p atoms = coverage_loop p 0 atoms

-- The inner loop of `maximal_patterns`, up to its `break`.
unfoldable pub below_any : Pattern → List Pattern → Result Bool
below_any p [] = ok false
below_any p (q ∷ patterns) =
    less_equal p q >>= λ below. if below then ok true else below_any p patterns

-- The outer loop, behind the candidates `before`.
unfoldable pub maximal_loop : List Pattern → List Pattern → Result (List Pattern)
maximal_loop before [] = ok []
maximal_loop before (p ∷ behind) = below_any p before >>= λ lower.
    (if lower then ok true else below_any p behind) >>= λ covered.
    maximal_loop (before ++ (p ∷ [])) behind >>= λ rest. ok (if covered then rest else p ∷ rest)

unfoldable pub maximal_patterns : List Atom → Result (List Pattern)
maximal_patterns atoms = maximal_loop [] (sort_patterns (map (λ (a : Atom). a.pattern) atoms))

unfoldable pub remove_below : List Pattern → Pattern → Result (List Pattern)
remove_below [] upper = ok []
remove_below (p ∷ patterns) upper =
    (if symbols_eq p.symbols upper.symbols then ok false else less_equal p upper) >>= λ removed.
    remove_below patterns upper >>= λ rest. ok (if removed then rest else p ∷ rest)

-- `std::find(…) == patterns.end()`, negated.
unfoldable pub contains_pattern : Pattern → List Pattern → Bool
contains_pattern p [] = false
contains_pattern p (q ∷ patterns) = symbols_eq q.symbols p.symbols || contains_pattern p patterns

-- The loop over `j` for the pattern at `i`: the upper bound, and the patterns behind `i` but that at `j`.
unfoldable pub find_partner : Pattern → ℕ → List Pattern → Result (Option (Pattern × List Pattern))
find_partner p dictionary_size [] = ok none
find_partner p dictionary_size (q ∷ patterns) = least_upper_bound p q >>= λ upper.
    if ltb dictionary_size (rank upper)
    then (find_partner p dictionary_size patterns >>= λ found. elim found [
      | none ↦ ok none
      | some (u, others) ↦ ok (some (u, q ∷ others))
    ])
    else ok (some (upper, patterns))

-- The loop over `i`: the upper bound, and all patterns but those at `i` and `j`.
unfoldable pub find_pair : ℕ → List Pattern → Result (Option (Pattern × List Pattern))
find_pair dictionary_size [] = ok none
find_pair dictionary_size (p ∷ patterns) = find_partner p dictionary_size patterns >>= λ found.
    elim found [
      | some (u, others) ↦ ok (some (u, others))
      | none ↦ find_pair dictionary_size patterns >>= λ later. elim later [
        | none ↦ ok none
        | some (u, others) ↦ ok (some (u, p ∷ others))
      ]
    ]

-- What follows a pair that was found.
unfoldable pub combine_pair : Pattern → List Pattern → Result (List Pattern)
combine_pair upper others = remove_below others upper >>= λ kept.
    ok (sort_patterns (if contains_pattern upper kept then kept else kept ++ (upper ∷ [])))

-- The `while` loop, for `fuel` rounds that change the patterns.
unfoldable pub combine_loop : ℕ → ℕ → List Pattern → Result (List Pattern)
combine_loop dictionary_size zero patterns = ok patterns
combine_loop dictionary_size (suc fuel) patterns = find_pair dictionary_size patterns >>= λ found.
    elim found [
      | none ↦ ok patterns
      | some (upper, others) ↦
          combine_pair upper others >>= λ next. combine_loop dictionary_size fuel next
    ]

-- Each round takes two patterns away and adds one at most, so the number of patterns is fuel enough.
unfoldable pub combine_greedily : List Pattern → ℕ → Result (List Pattern)
combine_greedily patterns dictionary_size =
    combine_loop dictionary_size (length patterns) (sort_patterns patterns)
