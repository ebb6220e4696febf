-- ===== src/Pattern/Rank.antt =====
-- The rank of a pattern grows along `less_equal`, so that the simplest pattern has the least rank.
use byte_select.Prelude.{All}
use byte_select.Pattern.{IsSymbol}
use mathlib.Core.Path.{subst}
use byte_select.Pattern.Describes.{describes_iff}
use byte_select.Prelude.{if◌then◌else◌, ◌==◌, Bool-cases}
use byte_select.Prelude.{ℕ, zero, suc, ◌+◌, ◌^◌, ◌≤◌, ◌<◌, ◌≡◌, refl, sym, ◌∙◌, ap, arith, ok, true}
use byte_select.Prelude.{
  List, [], ◌∷◌, map, length, get_or, Table, empty_table, update, Option-cases, some, inl, inr,
  length-map,
}
use native.Mathlib.Decide.{ℕ_discrete}
use byte_select.Prelude.Pigeonhole.{pigeonhole}
use byte_select.Pattern.{
  Pattern, Block, canonicalize_loop, canonicalize, rank_of, rank, simplest, less_equal, describes,
}
use byte_select.Pattern.Naming.{Below, Below-update, next_symbol_lem}
use byte_select.Pattern.Order.{IsCanonical, less_equal_iff}
use byte_select.Pattern.Simplest.{simplest_least}

-- The first place of a name.
place_of : List ℕ → ℕ → ℕ
place_of [] k = 0
place_of (x ∷ xs) k = if x == k then 0 else suc (place_of xs k)

abbrev HasPlace : List ℕ → ℕ → Type 0
HasPlace xs k = (place_of xs k < length xs) × (get_or xs (place_of xs k) 0 ≡ k)

HasPlace-next : (x : ℕ) (xs : List ℕ) (k : ℕ) → HasPlace xs k → HasPlace (x ∷ xs) k
unfolding place_of
HasPlace-next x xs k (h, e) = elim (Bool-cases (x == k)) [
  | inl here ↦ rw here (omega arith, ground arith)
  | inr there ↦ rw there (omega arith, e)
]

HasPlace-first : (k : ℕ) (xs : List ℕ) → HasPlace (k ∷ xs) k
unfolding place_of
HasPlace-first k xs = let here : (k == k) ≡ true = ground arith in rw here (omega arith, refl)

get_or-map :
    (f : ℕ → ℕ) (xs : List ℕ) (i : ℕ) → i < length xs → get_or (map f xs) i 0 ≡ f (get_or xs i 0)
get_or-map f [] i h = absurd (omega arith)
get_or-map f (x ∷ xs) zero h = refl
get_or-map f (x ∷ xs) (suc i) h = get_or-map f xs i (omega arith)

get_or-rank_of : (xs : List ℕ) (i : ℕ) → i < length xs → get_or xs i 0 < rank_of xs
unfolding rank_of
get_or-rank_of [] i h = absurd (omega arith)
get_or-rank_of (x ∷ xs) zero h = omega arith
get_or-rank_of (x ∷ xs) (suc i) h = omega (arith, get_or-rank_of xs i (omega arith))

-- Every name from `n` on below the rank is given.
canonicalize_loop-HasPlace :
    (t : Table) (n : ℕ) (xs : List ℕ)
    → n + length xs < 2 ^ 16
    → Below t n
    → (k : ℕ) → n ≤ k
    → k < rank_of (canonicalize_loop t n xs)
    → HasPlace (canonicalize_loop t n xs) k
unfolding canonicalize_loop rank_of
canonicalize_loop-HasPlace t n [] fits below k low = λ high. absurd (omega arith)
canonicalize_loop-HasPlace t n (x ∷ xs) fits below k low = elim (Option-cases (t x)) [
  | inr (i, old) ↦
      let small : i < n = below x i old in
      rw (old, canonicalize_loop)
        (λ high.
          HasPlace-next i (canonicalize_loop t n xs) k
            (canonicalize_loop-HasPlace t n xs (omega arith) below k low (omega arith)))
  | inl new ↦
      rw (new, canonicalize_loop, next_symbol_lem n (length xs) fits)
        (λ high. elim (ℕ_discrete k n) [
          | yes e ↦ rw (← e) (HasPlace-first k (canonicalize_loop (update t x (some k)) (suc k) xs))
          | no ne ↦ HasPlace-next n (canonicalize_loop (update t x (some n)) (suc n) xs) k (
              canonicalize_loop-HasPlace (update t x (some n)) (suc n) xs (omega arith)
                (Below-update t n x below) k (omega arith) (omega arith))
        ])
]

-- A canonical pattern of fewer than 65536 symbols that is below another has no greater rank.
pub rank-less_equal :
    (p q : Pattern)
    → length p.symbols < 2 ^ 16
    → IsCanonical p
    → less_equal p q ≡ ok true
    → rank p ≤ rank q
unfolding rank canonicalize
rank-less_equal p q fits canonical below =
    let (h, e) = (less_equal_iff p q).0.0 below in
    let l : length p.symbols ≡ length q.symbols = sym (ap length e) ∙ length-map h q.symbols in
    pigeonhole (rank_of p.symbols) (rank_of q.symbols)
      (λ k. get_or q.symbols (place_of p.symbols k) 0) h
      (λ k hk.
        let (inside, here) =
          subst (λ (xs : List ℕ). k < rank_of xs → HasPlace xs k) canonical
            (canonicalize_loop-HasPlace empty_table 0 p.symbols (omega arith) (λ k i e. cc) k
              (omega arith))
            hk in
        (
          get_or-rank_of q.symbols (place_of p.symbols k) (omega arith),
          sym (get_or-map h q.symbols (place_of p.symbols k) (omega arith))
              ∙ ap (λ (xs : List ℕ). get_or xs (place_of p.symbols k) 0) e
              ∙ here,
        ))

-- A pattern that describes a block of fewer than 65536 bytes has no smaller rank than the simplest
-- pattern of the block.
pub rank_least :
    (block : Block) (p : Pattern)
    → length block < 2 ^ 16
    → describes p block ≡ true
    → rank (simplest block) ≤ rank p
rank_least block p fits same =
    let (canonical, own, least) = simplest_least block fits in
    let (f, e) = (describes_iff (simplest block) block).0 own in
    let l : length (simplest block).symbols ≡ length block =
      sym (length-map f (simplest block).symbols) ∙ ap length e in
    rank-less_equal (simplest block) p (omega arith) canonical ((least p).0 same)

canonicalize_loop-IsSymbol :
    (t : Table) (n : ℕ) (xs : List ℕ)
    → n + length xs < 2 ^ 16
    → Below t n
    → All IsSymbol (canonicalize_loop t n xs)
unfolding canonicalize_loop
canonicalize_loop-IsSymbol t n [] fits below = tt
canonicalize_loop-IsSymbol t n (x ∷ xs) fits below = elim (Option-cases (t x)) [
  | inr (i, old) ↦
      let small : i < n = below x i old in
      rw (old, canonicalize_loop, All)
        (omega arith, canonicalize_loop-IsSymbol t n xs (omega arith) below)
  | inl new ↦
      rw (new, canonicalize_loop, All, next_symbol_lem n (length xs) fits)
        (
          omega arith,
          canonicalize_loop-IsSymbol (update t x (some n)) (suc n) xs (omega arith)
              (Below-update t n x below),
        )
]

-- The symbols of a canonical pattern of fewer than 65536 fit 16 bits.
pub IsCanonical-IsSymbol :
    (p : Pattern) → length p.symbols < 2 ^ 16 → IsCanonical p → All IsSymbol p.symbols
unfolding canonicalize
IsCanonical-IsSymbol p fits canonical =
    subst (λ (xs : List ℕ). All IsSymbol xs) canonical
      (canonicalize_loop-IsSymbol empty_table 0 p.symbols (omega arith) (λ k i e. cc))
