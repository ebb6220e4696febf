-- ===== src/Pattern/Simplest.antt =====
-- `Pattern::simplest`: the least pattern that describes a block.
use byte_select.Prelude.{ℕ, ◌^◌, ◌<◌, ◌≡◌, ◌↔◌, refl, ◌∙◌, ap, ap₂}
use byte_select.Prelude.{arith, true, List, [], ◌∷◌, length, ok}
use byte_select.Prelude.{Table, update, empty_table, some, Option-cases, inl, inr}
use byte_select.Pattern.{Pattern, Block, less_equal, describes, next_symbol}
use byte_select.Pattern.{simplest, simplest_loop, canonicalize, canonicalize_loop}
use byte_select.Pattern.Naming.{canonicalize_inverse}
use byte_select.Pattern.Describes.{Factors, describes_iff}
use byte_select.Pattern.Order.{Factors-trans, less_equal-Factors, Factors-less_equal}
use byte_select.Pattern.Order.{canonicalize_idem, canonicalize-Factors, IsCanonical}

abbrev Bounded : Table → Type 0
Bounded t = (k i : ℕ) → t k ≡ some i → i < 2 ^ 16

simplest_loop-canonicalize_loop :
    (t : Table) (n : ℕ) (xs : List ℕ)
    → n < 2 ^ 16
    → Bounded t
    → simplest_loop t n xs ≡ canonicalize_loop t n xs
unfolding simplest_loop canonicalize_loop
simplest_loop-canonicalize_loop t n [] hn ht = refl
simplest_loop-canonicalize_loop t n (x ∷ xs) hn ht = elim (Option-cases (t x)) [
  | inl new ↦
      rw (new, simplest_loop, canonicalize_loop)
        (ap₂ ◌∷◌ (omega arith) (
          simplest_loop-canonicalize_loop (update t x (some n)) (next_symbol n) xs (omega arith)
            (λ k i e. ground (arith, ht k i))))
  | inr (i, old) ↦
      let small : i < 2 ^ 16 = ht x i old in
      rw (old, simplest_loop, canonicalize_loop)
        (ap₂ ◌∷◌ (omega arith) (simplest_loop-canonicalize_loop t n xs hn ht))
]

-- The symbols of the simplest pattern are the block, renamed by first occurrence.
pub simplest-canonicalize :
    (block : Block) → length block < 2 ^ 16 → (simplest block).symbols ≡ canonicalize block
unfolding simplest canonicalize
simplest-canonicalize block fits =
    ap canonicalize
      (simplest_loop-canonicalize_loop empty_table 0 block (omega arith) (λ k i e. cc))
    ∙ canonicalize_idem block fits

-- For a block of fewer than 65536 bytes, the simplest pattern is canonical and describes the block,
-- and a pattern describes the block exactly when the simplest pattern is below it.
pub simplest_least :
    (block : Block)
    → length block < 2 ^ 16
    → IsCanonical (simplest block)
      × (describes (simplest block) block ≡ true)
      × ((p : Pattern) → (describes p block ≡ true) ↔ (less_equal (simplest block) p ≡ ok true))
simplest_least block fits =
    let e = simplest-canonicalize block fits in
    let down : Factors (simplest block).symbols block = rw e (canonicalize_inverse block fits) in
    let up : Factors block (simplest block).symbols = rw e (canonicalize-Factors block) in
    (
      rw e (canonicalize_idem block fits),
      (describes_iff (simplest block) block).1 down,
      λ p. (
        λ h.
            Factors-less_equal (simplest block) p
              (Factors-trans _ _ _ ((describes_iff p block).0 h) up),
        λ h.
            (describes_iff p block).1
              (Factors-trans _ _ _ (less_equal-Factors (simplest block) p h) down),
      ),
    )
