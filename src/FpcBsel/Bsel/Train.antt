-- ===== src/FpcBsel/Bsel/Train.antt =====
-- The training of a pattern set, `train_bsel` (fpc-bsel/src/bsel.cpp). The std::map from keys is the list
-- of its entries in the order of the keys, and a key is the list of the symbols.
use byte_select.Prelude.{ℕ, ◌+◌, ◌%◌, ◌^◌, min, Bool, true, false, not, ◌&&◌, ◌||◌}
use byte_select.Prelude.{List, [], ◌∷◌, map, length, take, if◌then◌else◌, ◌==◌, ltb}
use byte_select.Prelude.{Result, ok, ◌>>=◌, ◌>>◌, throw_if, invalid_argument}
use byte_select.FpcBsel.Bsel.{Pattern, BselModel, rank, simplest_pattern}

-- `<` of two byte strings.
unfoldable pub bytes_lt : List ℕ → List ℕ → Bool
bytes_lt xs [] = false
bytes_lt [] (y ∷ ys) = true
bytes_lt (x ∷ xs) (y ∷ ys) = ltb x y || (x == y && bytes_lt xs ys)

-- An entry of the map: the pair of a count and a pattern.
pub record Counted : Type 0 where
  pub count : ℕ
  pub pattern : Pattern

-- `counts[key_for(pattern)]`, counted once more.
unfoldable pub count_pattern : Pattern → List Counted → List Counted
count_pattern p [] = (record { count = 1; pattern = p }) ∷ []
count_pattern p (c ∷ counts) =
    if bytes_lt c.pattern.symbols p.symbols
    then c ∷ count_pattern p counts
    else if bytes_lt p.symbols c.pattern.symbols
    then (record { count = 1; pattern = p }) ∷ c ∷ counts
    else (record { count = (c.count + 1) % 2 ^ 64; pattern = p }) ∷ counts

-- The loop over the blocks.
unfoldable pub count_blocks : ℕ → List Counted → List (List ℕ) → Result (List Counted)
count_blocks block_size counts [] = ok counts
count_blocks block_size counts (block ∷ blocks) = do
  throw_if (not (length block == block_size)) (invalid_argument "mixed BSEL block sizes")
  p ← simplest_pattern block
  count_blocks block_size (count_pattern p counts) blocks

-- The comparison of the sort: falling counts, then rising ranks, then the symbols.
unfoldable pub ranked_before : Counted → Counted → Bool
ranked_before a b =
    if not (a.count == b.count)
    then ltb b.count a.count
    else if not (rank a.pattern == rank b.pattern)
    then ltb (rank a.pattern) (rank b.pattern)
    else bytes_lt a.pattern.symbols b.pattern.symbols

-- `std::sort`: no two entries are equivalent, so there is one sorted order.
unfoldable pub insert_ranked : Counted → List Counted → List Counted
insert_ranked c [] = c ∷ []
insert_ranked c (d ∷ ranked) =
    if ranked_before c d then c ∷ d ∷ ranked else d ∷ insert_ranked c ranked

unfoldable pub sort_ranked : List Counted → List Counted
sort_ranked [] = []
sort_ranked (c ∷ counts) = insert_ranked c (sort_ranked counts)

unfoldable pub first_size : List (List ℕ) → ℕ
first_size [] = 0
first_size (block ∷ blocks) = length block

unfoldable pub train_bsel : List (List ℕ) → ℕ → Result BselModel
train_bsel blocks max_patterns = do
  throw_if (length blocks == 0 || (max_patterns == 0 || ltb 65535 max_patterns))
      (invalid_argument "invalid BSEL training configuration")
  counts ← count_blocks (first_size blocks) [] blocks
  let ranked = sort_ranked counts
  ok (record {
    block_size = first_size blocks;
    patterns = take (min max_patterns (length ranked)) (map (λ (c : Counted). c.pattern) ranked);
  })
