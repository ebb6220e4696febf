-- ===== src/Pattern.antt =====
-- Patterns (include/byte_select/pattern.hpp, src/pattern.cpp): the equality structure of a block.
-- A byte and a `uint16_t` symbol are natural numbers. The hash maps of `canonicalize` and
-- `least_upper_bound` and the arrays of `int` that start at -1 are tables, whose `none` is the
-- missing key or the -1. The arrays have `rank()` cells and are read at symbols below the rank.
pub mod Naming
pub mod Describes
pub mod Order
pub mod Simplest
pub mod Join
pub mod Rank
mod Examples
use byte_select.Prelude.{ℕ, zero, suc, ◌+◌, ◌*◌, ◌%◌, ◌^◌, ◌<◌, max, bit_or, Bool, true, false, not}
use byte_select.Prelude.{List, [], ◌∷◌, length, Option, none, some, Table, empty_table, update}
use byte_select.Prelude.{if◌then◌else◌, ◌==◌, Result, ok, err, ◌>>◌, throw_if, Error, ◌≡◌, ◌≢◌}
use byte_select.Prelude.{invalid_argument}

abbrev pub Block : Type 0
Block = List ℕ

pub record Pattern : Type 0 where
  pub symbols : List ℕ

abbrev pub IsByte : ℕ → Type 0
IsByte b = b < 2 ^ 8

abbrev pub IsSymbol : ℕ → Type 0
IsSymbol s = s < 2 ^ 16

-- `next` is a `uint16_t`: `++next` wraps.
abbrev pub next_symbol : ℕ → ℕ
next_symbol next = (next + 1) % 2 ^ 16

-- The loop of `Pattern::canonicalize`; `emplace` keeps the entry of a key that is there.
unfoldable pub canonicalize_loop : Table → ℕ → List ℕ → List ℕ
canonicalize_loop mapping next [] = []
canonicalize_loop mapping next (symbol ∷ rest) = elim (mapping symbol) [
  | some old ↦ old ∷ canonicalize_loop mapping next rest
  | none ↦ next ∷ canonicalize_loop (update mapping symbol (some next)) (next_symbol next) rest
]

unfoldable pub canonicalize : List ℕ → List ℕ
unfolding canonicalize_loop
canonicalize symbols = canonicalize_loop empty_table 0 symbols

-- `explicit Pattern(std::vector<std::uint16_t>)`
unfoldable pub of_symbols : List ℕ → Pattern
unfolding canonicalize
of_symbols symbols = record { symbols = canonicalize symbols }

-- The loop of `Pattern::simplest`.
simplest_loop : Table → ℕ → Block → List ℕ
simplest_loop indices next [] = []
simplest_loop indices next (byte ∷ rest) = elim (indices byte) [
  | some index ↦ (index % 2 ^ 16) ∷ simplest_loop indices next rest
  | none ↦ (next % 2 ^ 16) ∷ simplest_loop (update indices byte (some next)) (next_symbol next) rest
]

unfoldable pub simplest : Block → Pattern
unfolding simplest_loop of_symbols
simplest block = of_symbols (simplest_loop empty_table 0 block)

unfoldable pub rank_of : List ℕ → ℕ
rank_of [] = 0
rank_of (symbol ∷ rest) = max (symbol + 1) (rank_of rest)

unfoldable pub rank : Pattern → ℕ
unfolding rank_of
rank p = rank_of p.symbols

unfoldable pub size : Pattern → ℕ
size p = length p.symbols

-- The loop that `describes` and `less_equal` share: the value at a key is recorded when the key is
-- met first, and later values there must be the same.
pub agrees : Table → List ℕ → List ℕ → Bool
agrees values [] xs = true
agrees values (k ∷ ks) [] = true
agrees values (k ∷ ks) (x ∷ xs) = elim (values k) [
  | none ↦ agrees (update values k (some x)) ks xs
  | some value ↦ elim (value == x) [ true ↦ agrees values ks xs | false ↦ false ]
]

unfoldable pub describes : Pattern → Block → Bool
unfolding agrees
describes p block =
    if not (length block == length p.symbols) then false else agrees empty_table p.symbols block

abbrev pub different_sizes : Error
different_sizes = invalid_argument "cannot compare patterns with different sizes"

unfoldable pub less_equal : Pattern → Pattern → Result Bool
unfolding agrees size
less_equal p other = do
  throw_if (not (size p == size other)) different_sizes
  ok (agrees empty_table other.symbols p.symbols)

-- `(uint32_t{a} << 16) | uint32_t{b}`
pub pair_key : ℕ → ℕ → ℕ
pair_key a b = bit_or (a * 2 ^ 16 % 2 ^ 32) b

-- The loop of `least_upper_bound`.
join_loop : Table → ℕ → List ℕ → List ℕ → List ℕ
join_loop pairs next [] bs = []
join_loop pairs next (a ∷ as') [] = []
join_loop pairs next (a ∷ as') (b ∷ bs) = elim (pairs (pair_key a b)) [
  | some old ↦ old ∷ join_loop pairs next as' bs
  | none ↦ next ∷ join_loop (update pairs (pair_key a b) (some next)) (next_symbol next) as' bs
]

abbrev pub not_combinable : Error
not_combinable = invalid_argument "cannot combine patterns with different sizes"

unfoldable pub least_upper_bound : Pattern → Pattern → Result Pattern
unfolding join_loop size of_symbols pair_key
least_upper_bound p other = do
  throw_if (not (size p == size other)) not_combinable
  ok (of_symbols (join_loop empty_table 0 p.symbols other.symbols))
