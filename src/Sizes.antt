-- ===== src/Sizes.antt =====
-- The allocated size of an encoded block, `quantized_size` (src/baseline.cpp).
pub mod FirstFit
mod Examples
use byte_select.Prelude.{ℕ, zero, suc, ◌+◌, List, [], ◌∷◌, Option, none, some, if◌then◌else◌, leb}

-- The loop over the targets, from index `i` on: the size, and what is stored at `target_index`.
unfoldable pub quantized_loop : ℕ → ℕ → ℕ → List ℕ → ℕ × Option ℕ
quantized_loop encoded_size block_size i [] = (block_size, none)
quantized_loop encoded_size block_size i (target ∷ targets) =
    let next = quantized_loop encoded_size block_size (i + 1) targets in
    if leb encoded_size target then (target, some i) else next

unfoldable pub quantized_size : ℕ → ℕ → List ℕ → ℕ × Option ℕ
quantized_size encoded_size block_size targets =
    if leb block_size encoded_size
    then (block_size, none)
    else quantized_loop encoded_size block_size 0 targets
