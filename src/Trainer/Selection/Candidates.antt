-- ===== src/Trainer/Selection/Candidates.antt =====
-- The candidates of a round of the exhaustive selection (src/trainer.cpp): the best of them, and those that are left.
use mathlib.Core.List.{Memᴰ}
use mathlib.Core.List.Memᴰ
use byte_select.Prelude.{ℕ, ◌+◌, ◌≤◌, ◌≡◌, ◌⊎◌, refl, ◌∙◌, arith, Bool-cases, inl, inr}
use byte_select.Prelude.{true, ◌&&◌, ◌||◌, List, [], ◌∷◌, length, ◌==◌, ltb, ok}
use byte_select.Pattern.{Pattern}
use byte_select.Trainer.{Atom, symbols_lt, symbols_eq}
use byte_select.Trainer.Order.{pattern_same}
use byte_select.Trainer.Selection.{best_candidate, erase_pattern}
use byte_select.Trainer.Selection.Marginal.{marginal, left_over}
use byte_select.Trainer.Selection.Marginal.{AreAtoms, coverage-left_over}

symbols_eq_refl : (xs : List ℕ) → symbols_eq xs xs ≡ true
unfolding symbols_eq
symbols_eq_refl [] = refl
symbols_eq_refl (x ∷ xs) = let rest = symbols_eq_refl xs in ground arith

-- One pattern less is left, and all the others.
pub length-erase_pattern :
    (p : Pattern) (candidates : List Pattern)
    → Memᴰ p candidates
    → length (erase_pattern p candidates) + 1 ≡ length candidates
unfolding erase_pattern
length-erase_pattern p [] m = absurd (Memᴰ.not-nil m)
length-erase_pattern p (q ∷ candidates) m = elim (Bool-cases (symbols_eq q.symbols p.symbols)) [
  | inl same ↦ rw same (omega arith)
  | inr other ↦ elim (Memᴰ.cases_cons m) [
    | inl e ↦ absurd (ground (arith, symbols_eq_refl p.symbols, rw (← e) at other))
    | inr later ↦ rw (other, length) (omega (arith, length-erase_pattern p candidates later))
  ]
]

pub erase_pattern-Memᴰ :
    (p q : Pattern) (candidates : List Pattern)
    → Memᴰ q candidates
    → (q ≡ p) ⊎ Memᴰ q (erase_pattern p candidates)
unfolding erase_pattern
erase_pattern-Memᴰ p q [] m = absurd (Memᴰ.not-nil m)
erase_pattern-Memᴰ p q (c ∷ candidates) m = elim (Bool-cases (symbols_eq c.symbols p.symbols)) [
  | inl same ↦ elim (Memᴰ.cases_cons m) [
    | inl e ↦ inl (e ∙ pattern_same c p same)
    | inr later ↦ inr (rw same later)
  ]
  | inr other ↦ elim (Memᴰ.cases_cons m) [
    | inl e ↦ inr (rw other (Memᴰ.head e))
    | inr later ↦ elim (erase_pattern-Memᴰ p q candidates later) [
      | inl same ↦ inl same
      | inr kept ↦ inr (rw other (Memᴰ.tail kept))
    ]
  ]
]

pub erase_pattern-kept :
    (p q : Pattern) (candidates : List Pattern)
    → Memᴰ q (erase_pattern p candidates)
    → Memᴰ q candidates
unfolding erase_pattern
erase_pattern-kept p q [] m = m
erase_pattern-kept p q (c ∷ candidates) m = elim (Bool-cases (symbols_eq c.symbols p.symbols)) [
  | inl same ↦ Memᴰ.tail (rw same at m)
  | inr other ↦
      let m' : Memᴰ q (c ∷ erase_pattern p candidates) = rw other at m in
      elim (Memᴰ.cases_cons m') [
        | inl e ↦ Memᴰ.head e
        | inr later ↦ Memᴰ.tail (erase_pattern-kept p q candidates later)
      ]
]

module _ (n : ℕ) (atoms : List Atom) (sized : AreAtoms n atoms) (all : List Pattern)
    (fit : (q : Pattern) → Memᴰ q all → length q.symbols ≡ n) where
  -- The scan of a round: a candidate, and no candidate covers more anew.
  pub best_candidate-most :
      (before : List Pattern) (best : Pattern) (candidates : List Pattern)
      → ((q : Pattern) → Memᴰ q candidates → Memᴰ q all)
      → (p : Pattern) × (best_candidate
            (left_over before atoms)
            best
            (marginal atoms before best)
            candidates
          ≡ ok (p, marginal atoms before p))
        × Memᴰ p (best ∷ candidates)
        × ((q : Pattern)
            → Memᴰ q (best ∷ candidates)
            → marginal atoms before q ≤ marginal atoms before p)
  unfolding best_candidate
  best_candidate-most before best [] inside =
      (best, refl, Memᴰ.head refl, λ q m. rw (Memᴰ.eq_of_singleton m) (omega arith))
  best_candidate-most before best (c ∷ candidates) inside =
      let counted = coverage-left_over n c before atoms (fit c (inside c (Memᴰ.head refl))) sized in
      let behind = λ (q : Pattern) (m : Memᴰ q candidates). inside q (Memᴰ.tail m) in
      elim (Bool-cases (
        ltb (marginal atoms before best) (marginal atoms before c)
        || (marginal atoms before c == marginal atoms before best
            && symbols_lt c.symbols best.symbols))) [
              | inl better ↦
                  let (p, run, from, most) = best_candidate-most before c candidates behind in
                  let first = most c (Memᴰ.head refl) in
                  (
                    p,
                    rw (counted, better) run,
                    Memᴰ.tail from,
                    λ q m. elim (Memᴰ.cases_cons m) [
                      | inl e ↦ rw e (ground arith)
                      | inr later ↦ most q later
                    ],
                  )
              | inr worse ↦
                  let (p, run, from, most) = best_candidate-most before best candidates behind in
                  let first = most best (Memᴰ.head refl) in
                  (
                    p,
                    rw (counted, worse) run,
                    elim (Memᴰ.cases_cons from) [
                      | inl e ↦ Memᴰ.head e
                      | inr later ↦ Memᴰ.tail (Memᴰ.tail later)
                    ],
                    λ q m. elim (Memᴰ.cases_cons m) [
                      | inl e ↦ rw e first
                      | inr later ↦ elim (Memᴰ.cases_cons later) [
                        | inl e ↦ rw e (ground arith)
                        | inr last ↦ most q (Memᴰ.tail last)
                      ]
                    ],
                  )
            ]
