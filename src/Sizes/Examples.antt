-- ===== src/Sizes/Examples.antt =====
-- Runs of `quantized_size`.
use byte_select.Prelude.{◌<◌, ◌≤◌, ◌≡◌, refl, [], ◌∷◌, All, some, none, ◌⊎◌}
use byte_select.Sizes.{quantized_size}
use byte_select.Sizes.FirstFit.{Fits, quantized_size_lem}

second_target : quantized_size 20 64 (16 ∷ 32 ∷ 48 ∷ []) ≡ (32, some 1)
unfolding quantized_size byte_select.Sizes.quantized_loop
second_target = refl

quantized_size_lem_example :
    ((quantized_size 20 64 (16 ∷ 32 ∷ 48 ∷ []) ≡ (64, none))
      × ((64 ≤ 20) ⊎ All (λ t. t < 20) (16 ∷ 32 ∷ 48 ∷ [])))
    ⊎ ((20 < 64) × Fits 20 (16 ∷ 32 ∷ 48 ∷ []) 0 (quantized_size 20 64 (16 ∷ 32 ∷ 48 ∷ [])))
quantized_size_lem_example = quantized_size_lem 20 64 (16 ∷ 32 ∷ 48 ∷ [])
