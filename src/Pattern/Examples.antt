-- ===== src/Pattern/Examples.antt =====
-- Runs of the pattern operations, and the theorems at concrete inputs.
use byte_select.Prelude.{ℕ, ◌≡◌, ◌≢◌, ◌↔◌, refl, arith, true, false, [], ◌∷◌, map}
use byte_select.Prelude.{length, ok, err}
use byte_select.Pattern.{Pattern, Block, describes, less_equal, different_sizes, simplest}
use byte_select.Pattern.{least_upper_bound, of_symbols}
use byte_select.Pattern.Describes.{Factors, describes_iff}
use byte_select.Pattern.Order.{
  IsCanonical, less_equal_iff, less_equal_order, of_symbols-IsCanonical,
}
use byte_select.Pattern.Simplest.{simplest_least}
use byte_select.Pattern.Join.{least_upper_bound_lem}
use byte_select.Prelude.{◌≤◌}
use byte_select.Pattern.{rank}
use byte_select.Pattern.Rank.{rank_least}

abbrev block_abac : Block
block_abac = 9 ∷ 4 ∷ 9 ∷ 7 ∷ []

abbrev pattern_0102 : Pattern
pattern_0102 = record { symbols = 0 ∷ 1 ∷ 0 ∷ 2 ∷ [] }

abbrev pattern_0011 : Pattern
pattern_0011 = record { symbols = 0 ∷ 0 ∷ 1 ∷ 1 ∷ [] }

abbrev pattern_0123 : Pattern
pattern_0123 = record { symbols = 0 ∷ 1 ∷ 2 ∷ 3 ∷ [] }

simplest_run : simplest block_abac ≡ pattern_0102
unfolding simplest
simplest_run = refl

join_run : least_upper_bound pattern_0102 pattern_0011 ≡ ok pattern_0123
unfolding least_upper_bound
join_run = refl

order_run :
    (less_equal pattern_0102 pattern_0123 ≡ ok true)
    × (less_equal pattern_0123 pattern_0102 ≡ ok false)
unfolding less_equal
order_run = (refl, refl)

describes_iff_example :
    (describes pattern_0102 block_abac ≡ true)
    ↔ (dictionary : ℕ → ℕ) × (map dictionary pattern_0102.symbols ≡ block_abac)
describes_iff_example = describes_iff pattern_0102 block_abac

less_equal_iff_example :
    ((less_equal pattern_0011 pattern_0123 ≡ ok true)
      ↔ (f : ℕ → ℕ) × (map f pattern_0123.symbols ≡ pattern_0011.symbols))
    × ((less_equal pattern_0011 pattern_0123 ≡ err different_sizes)
        ↔ (length pattern_0011.symbols ≢ length pattern_0123.symbols))
less_equal_iff_example = less_equal_iff pattern_0011 pattern_0123

less_equal_order_example :
    (less_equal pattern_0011 pattern_0011 ≡ ok true)
    × (less_equal pattern_0011 pattern_0123 ≡ ok true
        → less_equal pattern_0123 pattern_0123 ≡ ok true
        → less_equal pattern_0011 pattern_0123 ≡ ok true)
    × (IsCanonical pattern_0011
        → IsCanonical pattern_0123
        → less_equal pattern_0011 pattern_0123 ≡ ok true
        → less_equal pattern_0123 pattern_0011 ≡ ok true
        → pattern_0011 ≡ pattern_0123)
less_equal_order_example = less_equal_order pattern_0011 pattern_0123 pattern_0123

of_symbols-IsCanonical_example :
    IsCanonical (of_symbols (5 ∷ 5 ∷ 2 ∷ []))
    × ((of_symbols (5 ∷ 5 ∷ 2 ∷ []) ≡ of_symbols (1 ∷ 1 ∷ 8 ∷ []))
        ↔ (Factors (5 ∷ 5 ∷ 2 ∷ []) (1 ∷ 1 ∷ 8 ∷ []) × Factors (1 ∷ 1 ∷ 8 ∷ []) (5 ∷ 5 ∷ 2 ∷ [])))
of_symbols-IsCanonical_example =
    of_symbols-IsCanonical (5 ∷ 5 ∷ 2 ∷ []) (1 ∷ 1 ∷ 8 ∷ []) (omega arith) (omega arith)

simplest_least_example :
    IsCanonical (simplest block_abac)
    × (describes (simplest block_abac) block_abac ≡ true)
    × ((p : Pattern)
        → (describes p block_abac ≡ true) ↔ (less_equal (simplest block_abac) p ≡ ok true))
simplest_least_example = simplest_least block_abac (omega arith)

least_upper_bound_lem_example :
    (upper : Pattern) × (least_upper_bound pattern_0102 pattern_0011 ≡ ok upper)
    × IsCanonical upper
    × (less_equal pattern_0102 upper ≡ ok true)
    × (less_equal pattern_0011 upper ≡ ok true)
    × ((r : Pattern)
        → less_equal pattern_0102 r ≡ ok true
        → less_equal pattern_0011 r ≡ ok true
        → less_equal upper r ≡ ok true)
least_upper_bound_lem_example =
    least_upper_bound_lem pattern_0102 pattern_0011 (omega arith) (omega arith) refl (omega arith)

described : describes pattern_0123 block_abac ≡ true
unfolding describes
described = refl

rank_least_example : rank (simplest block_abac) ≤ rank pattern_0123
rank_least_example = rank_least block_abac pattern_0123 (omega arith) described
