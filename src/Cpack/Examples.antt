-- ===== src/Cpack/Examples.antt =====
-- Runs of the C-Pack coder on small blocks.
use byte_select.Prelude.{ℕ, ◌<◌, ◌≤◌, ◌≡◌, refl, List, [], ◌∷◌, length, All, ok, arith, get_or, ◌⊎◌}
use byte_select.Cpack.{cpack_encode, cpack_decode, cpack_encoded_size, best_loop, matches_of}
use byte_select.Cpack.Blocks.{cpack_decode-cpack_encode}
use byte_select.Cpack.Match.{SharesHigh, IsMost, best_loop_best}
use byte_select.Word.Load.{IsByte}

abbrev block : List ℕ
block =
    1 ∷ 2 ∷ 3 ∷ 4 ∷ 9 ∷ 2 ∷ 3 ∷ 4 ∷ 1 ∷ 2 ∷ 3 ∷ 4 ∷ 0 ∷ 0 ∷ 0 ∷ 0 ∷ 7 ∷ 0 ∷ 0 ∷ 0 ∷ 5 ∷ 6 ∷ 3 ∷ 4
    ∷ []

block-IsByte : All IsByte block
block-IsByte = ground arith

-- 34 + 16 + 6 + 2 + 12 + 24 bits.
encoded_size : cpack_encoded_size block ≡ ok 12
unfolding cpack_encoded_size cpack_encode byte_select.Word.load_little_endian byte_select.Stream.put
    byte_select.Cpack.pack_word byte_select.Cpack.put_match best_loop byte_select.Cpack.push
    matches_of
encoded_size = refl

cpack_decode-cpack_encode_example :
    (encoded : List ℕ) × (cpack_encode block ≡ ok encoded)
    × (cpack_decode encoded (length block) ≡ ok block)
cpack_decode-cpack_encode_example = cpack_decode-cpack_encode block block-IsByte (omega arith) refl

abbrev dictionary : List ℕ
dictionary = 0x04030201 ∷ 0x04030209 ∷ []

best_loop_best_example :
    ((best_loop 0x04030208 1 0 0 dictionary ≡ (1, 0)) × IsMost 0x04030208 dictionary 1)
    ⊎ ((n i : ℕ) × (i < length dictionary)
        × (1 < n)
        × (n ≤ 4)
        × (best_loop 0x04030208 1 0 0 dictionary ≡ (n, i))
        × SharesHigh n 0x04030208 (get_or dictionary i 0)
        × IsMost 0x04030208 dictionary n)
best_loop_best_example =
    best_loop_best 0x04030208 dictionary (omega arith) (omega arith, (omega arith, tt))
