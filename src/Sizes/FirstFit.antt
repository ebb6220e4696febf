-- ===== src/Sizes/FirstFit.antt =====
-- `quantized_size` takes the first target that holds the encoded block.
use byte_select.Prelude.{
  ℕ, zero, suc, ◌+◌, ◌≤◌, ◌<◌, ◌≡◌, refl, ◌∙◌, ap, arith, List, [], ◌∷◌, length, All, get_or,
}
use byte_select.Prelude.{Option, none, some, leb, Bool-cases, ◌⊎◌, inl, inr}
use byte_select.Sizes.{quantized_loop, quantized_size}

-- The answer at the first of the targets that holds the block.
abbrev pub Fits : ℕ → List ℕ → ℕ → ℕ × Option ℕ → Type 0
Fits encoded_size targets start answer =
    (i : ℕ) × (i < length targets)
    × (encoded_size ≤ get_or targets i 0)
    × ((j : ℕ) → j < i → get_or targets j 0 < encoded_size)
    × (answer ≡ (get_or targets i 0, some (start + i)))

quantized_loop-cases :
    (encoded_size block_size start : ℕ) (targets : List ℕ)
    → (All (λ t. t < encoded_size) targets
        × (quantized_loop encoded_size block_size start targets ≡ (block_size, none)))
      ⊎ Fits encoded_size targets start (quantized_loop encoded_size block_size start targets)
unfolding quantized_loop
quantized_loop-cases e b start [] = inl (tt, refl)
quantized_loop-cases e b start (t ∷ targets) = elim (Bool-cases (leb e t)) [
  | inl fits ↦ rw fits (
      inr (
        0,
        omega arith,
        ground arith,
        λ j h. absurd (omega arith),
        ap (λ (k : ℕ). (t, some k)) (omega arith),
      ))
  | inr more ↦ rw more (elim (quantized_loop-cases e b (start + 1) targets) [
    | inl (all, answer) ↦ inl ((ground arith, all), answer)
    | inr (i, hi, fits, first, answer) ↦
        let above : t < e = ground arith in
        inr (
          suc i,
          omega arith,
          fits,
          before t e targets i above first,
          answer ∙ ap (λ (k : ℕ). (get_or targets i 0, some k)) (omega arith),
        )
  ])
]
  where
    before :
        (t e : ℕ) (targets : List ℕ) (i : ℕ)
        → t < e
        → ((j : ℕ) → j < i → get_or targets j 0 < e)
        → (j : ℕ) → j < suc i
        → get_or (t ∷ targets) j 0 < e
    before t e targets i h first zero hj = h
    before t e targets i h first (suc j) hj = first j (omega arith)

-- `quantized_size` answers the block size and leaves the index alone, and then the encoded block is
-- not smaller than the block or no target holds it; or it answers the first target that holds the
-- encoded block, with its index, and the encoded block is smaller than the block.
pub quantized_size_lem :
    (encoded_size block_size : ℕ) (targets : List ℕ)
    → ((quantized_size encoded_size block_size targets ≡ (block_size, none))
        × ((block_size ≤ encoded_size) ⊎ All (λ t. t < encoded_size) targets))
      ⊎ ((encoded_size < block_size)
          × Fits encoded_size targets 0 (quantized_size encoded_size block_size targets))
unfolding quantized_size
quantized_size_lem e b targets = elim (Bool-cases (leb b e)) [
  | inl large ↦ rw large (inl (refl, inl (ground arith)))
  | inr small ↦ rw small (elim (quantized_loop-cases e b 0 targets) [
    | inl (all, answer) ↦ inl (answer, inr all)
    | inr fits ↦ inr (ground arith, fits)
  ])
]
