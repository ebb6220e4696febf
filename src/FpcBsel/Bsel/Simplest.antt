-- ===== src/FpcBsel/Bsel/Simplest.antt =====
-- `simplest_pattern` of fpc-bsel (fpc-bsel/src/bsel.cpp) and `Pattern::simplest` (src/pattern.cpp) agree.
use byte_select.Prelude.{ℕ, ◌+◌, ◌≤◌, ◌<◌, ◌≡◌, ◌↔◌, refl, sym, ◌∙◌, ap, ap₂, arith, map, zero, suc}
use byte_select.Prelude.{
  List, [], ◌∷◌, length, ok, false, ◌==◌, get_or, Table, update, empty_table, some, Option-cases,
  inl, inr,
}
use byte_select.Pattern.{simplest, canonicalize, canonicalize_loop, next_symbol}
use byte_select.Pattern.Simplest.{simplest-canonicalize}
use byte_select.Pattern.Describes.{Factors}
use byte_select.Pattern.Naming.{canonicalize_inverse}
use byte_select.Pattern.Order.{canonicalize-Factors}
use byte_select.FpcBsel.Bsel.Trained.{simplest_loop-IsPatternOf}
use byte_select.FpcBsel.Bsel.{Pattern, simplest_loop, simplest_pattern}

simplest_loop-canonicalize_loop :
    (t : Table) (n : ℕ) (xs : List ℕ)
    → n + length xs ≤ 256
    → ((k i : ℕ) → t k ≡ some i → i < n)
    → simplest_loop t n xs ≡ canonicalize_loop t n xs
unfolding simplest_loop canonicalize_loop
simplest_loop-canonicalize_loop t n [] fits ht = refl
simplest_loop-canonicalize_loop t n (x ∷ xs) fits ht = elim (Option-cases (t x)) [
  | inl new ↦
      let step : next_symbol n ≡ n + 1 = omega arith in
      rw (new, simplest_loop, canonicalize_loop, step)
        (ap₂ ◌∷◌ (omega arith) (
          simplest_loop-canonicalize_loop (update t x (some n)) (n + 1) xs (omega arith)
            (λ k i e. ground (arith, ht k i))))
  | inr (i, old) ↦
      let small : i < n = ht x i old in
      rw (old, simplest_loop, canonicalize_loop)
        (ap₂ ◌∷◌ (omega arith) (simplest_loop-canonicalize_loop t n xs (omega arith) ht))
]

get_or-map :
    (f : ℕ → ℕ) (xs : List ℕ) (i : ℕ) → i < length xs → get_or (map f xs) i 0 ≡ f (get_or xs i 0)
get_or-map f [] i h = absurd (omega arith)
get_or-map f (x ∷ xs) zero h = refl
get_or-map f (x ∷ xs) (suc i) h = get_or-map f xs i (omega arith)

-- Where the keys are the same, the values are.
Factors-same :
    (ks xs : List ℕ) (i j : ℕ)
    → Factors ks xs
    → i < length ks
    → j < length ks
    → get_or ks i 0 ≡ get_or ks j 0
    → get_or xs i 0 ≡ get_or xs j 0
Factors-same ks xs i j (f, e) hi hj same =
    rw (← e) (get_or-map f ks i hi ∙ ap f same ∙ sym (get_or-map f ks j hj))

-- For a block of 1 to 256 bytes, `simplest_pattern` makes the symbols of the pattern that
-- `Pattern::simplest` makes, and two of them are the same exactly when their bytes of the block are.
pub simplest_pattern-simplest :
    (block : List ℕ)
    → 0 < length block
    → length block ≤ 256
    → (p : Pattern) × (simplest_pattern block ≡ ok p)
      × (p.symbols ≡ (simplest block).symbols)
      × (length p.symbols ≡ length block)
      × ((i j : ℕ)
          → i < length block
          → j < length block
          → (get_or p.symbols i 0 ≡ get_or p.symbols j 0) ↔ (get_or block i 0 ≡ get_or block j 0))
unfolding simplest_pattern canonicalize
simplest_pattern-simplest block more fits =
    let full : (length block == 0) ≡ false = ground arith in
    let e : simplest_loop empty_table 0 block ≡ canonicalize block =
      simplest_loop-canonicalize_loop empty_table 0 block (omega arith) (λ k i h. cc) in
    let (l, bytes) = simplest_loop-IsPatternOf empty_table 0 block in
    let down : Factors (simplest_loop empty_table 0 block) block =
      rw e (canonicalize_inverse block (omega arith)) in
    let up : Factors block (simplest_loop empty_table 0 block) =
      rw e (canonicalize-Factors block) in
    (
      record { symbols = simplest_loop empty_table 0 block },
      rw full refl,
      e ∙ sym (simplest-canonicalize block (omega arith)),
      l,
      λ i j hi hj. (
        Factors-same (simplest_loop empty_table 0 block) block i j down (omega arith) (omega arith),
        Factors-same block (simplest_loop empty_table 0 block) i j up hi hj,
      ),
    )
