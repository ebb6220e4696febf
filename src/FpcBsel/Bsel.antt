-- ===== src/FpcBsel/Bsel.antt =====
-- Byte Select coding of small blocks, fpc-bsel/src/bsel.cpp: patterns, `bsel_encode` and `bsel_decode`.
pub mod Fill
pub mod RoundTrip
pub mod Train
pub mod Trained
pub mod Simplest
pub mod Keys
pub mod Counts
pub mod Ranking
pub mod Selected
use byte_select.Prelude.{
  ℕ, zero, suc, ◌+◌, ◌*◌, ◌/◌, ◌%◌, ◌^◌, max, bit_or, Bool, true, false, not, ◌||◌, List, [], ◌∷◌,
  ◌++◌,
}
use byte_select.Prelude.{
  map, length, get_or, set, replicate, if◌then◌else◌, ◌==◌, ltb, leb, Option, none, some,
}
use byte_select.Prelude.{Result, ok, err, ◌>>=◌, ◌>>◌, throw_if, invalid_argument, runtime_error}
use byte_select.Prelude.{Table, empty_table, update}

pub record Pattern : Type 0 where
  pub symbols : List ℕ

pub record BselModel : Type 0 where
  pub block_size : ℕ
  pub patterns : List Pattern

-- `*std::max_element`, of a list that is not empty.
unfoldable pub max_element : List ℕ → ℕ
max_element [] = 0
max_element (x ∷ xs) = max x (max_element xs)

unfoldable pub rank_of : List ℕ → ℕ
rank_of [] = 0
rank_of (x ∷ xs) = max_element (x ∷ xs) + 1

unfoldable pub rank : Pattern → ℕ
rank p = rank_of p.symbols

-- The loop of `simplest_pattern`.
unfoldable pub simplest_loop : Table → ℕ → List ℕ → List ℕ
simplest_loop symbol_for next [] = []
simplest_loop symbol_for next (value ∷ block) = elim (symbol_for value) [
  | some symbol ↦ (symbol % 2 ^ 8) ∷ simplest_loop symbol_for next block
  | none ↦ (next % 2 ^ 8) ∷ simplest_loop (update symbol_for value (some next)) (next + 1) block
]

unfoldable pub simplest_pattern : List ℕ → Result Pattern
simplest_pattern block = do
  throw_if (length block == 0) (invalid_argument "BSEL block must not be empty")
  ok (record { symbols = simplest_loop empty_table 0 block })

-- What `put_u16` appends.
unfoldable pub put_u16 : ℕ → Result (List ℕ)
put_u16 value =
    throw_if (ltb 0xffff value) (invalid_argument "BSEL value exceeds 16 bits")
    >> ok ((value % 2 ^ 8) ∷ (value / 2 ^ 8 % 2 ^ 8) ∷ [])

unfoldable pub get_u16 : List ℕ → ℕ → Result ℕ
get_u16 bytes offset =
    throw_if (ltb (length bytes) (offset + 2)) (runtime_error "truncated BSEL stream")
    >> ok (bit_or (get_or bytes offset 0) (get_or bytes (offset + 1) 0 * 2 ^ 8 % 2 ^ 64))

-- The loop over a block that fills the dictionary; `none` where `matches` became false.
unfoldable pub fill : List ℕ → List Bool → List ℕ → List ℕ → Result (Option (List ℕ))
fill dictionary assigned [] block = ok (some dictionary)
fill dictionary assigned (symbol ∷ symbols) [] = ok (some dictionary)
fill dictionary assigned (symbol ∷ symbols) (byte ∷ block) =
    throw_if (leb (length dictionary) symbol) (invalid_argument "invalid BSEL pattern symbol")
    >> elim (get_or assigned symbol false) [
      | false ↦ fill (set dictionary symbol byte) (set assigned symbol true) symbols block
      | true ↦
          (let rest = fill dictionary assigned symbols block in
            if get_or dictionary symbol 0 == byte then rest else ok none)
    ]

-- `if (!best || result.size() < best->size()) best = std::move(result);`
unfoldable pub better : List ℕ → Option (List ℕ) → Option (List ℕ)
better result none = some result
better result (some best) = if ltb (length result) (length best) then some result else some best

-- The loop over the patterns, from `id` on.
unfoldable pub encode_patterns :
    List ℕ → ℕ → Option (List ℕ) → List Pattern → Result (Option (List ℕ))
encode_patterns block id best [] = ok best
encode_patterns block id best (p ∷ patterns) =
    throw_if (not (length p.symbols == length block)) (invalid_argument "invalid BSEL model")
    >> (fill (replicate (rank p) 0) (replicate (rank p) false) p.symbols block >>= λ found.
        elim found [
          | none ↦ encode_patterns block (id + 1) best patterns
          | some dictionary ↦ put_u16 id >>= λ result.
              encode_patterns block (id + 1) (better (result ++ dictionary) best) patterns
        ])

unfoldable pub bsel_encode : List ℕ → BselModel → Result (Option (List ℕ))
bsel_encode block model = do
  throw_if (not (length block == model.block_size)) (invalid_argument "incorrect BSEL block size")
  encode_patterns block 0 none model.patterns

-- `model.patterns[id]`, read below `patterns.size()` only.
abbrev pub pattern_at : BselModel → ℕ → Pattern
pattern_at model id = get_or model.patterns id (record { symbols = [] })

unfoldable pub bsel_decode : List ℕ → BselModel → Result (List ℕ)
bsel_decode encoded model = do
  id ← get_u16 encoded 0
  throw_if (leb (length model.patterns) id) (runtime_error "unknown BSEL pattern id")
  let p = pattern_at model id
  throw_if (not (length encoded == 2 + rank p)) (runtime_error "invalid BSEL dictionary size")
  ok (map (λ symbol. get_or encoded (2 + symbol) 0) p.symbols)
