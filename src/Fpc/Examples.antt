-- ===== src/Fpc/Examples.antt =====
-- Runs of the frequent pattern coder on small blocks.
use byte_select.Prelude.{ℕ, ◌≡◌, refl, List, [], ◌∷◌, length, All, ok, err, invalid_argument, arith}
use byte_select.Fpc.{fpc_encode, fpc_decode, fpc_encoded_size}
use byte_select.Fpc.Blocks.{fpc_decode-fpc_encode}
use byte_select.Word.Load.{IsByte}

abbrev block : List ℕ
block = 0 ∷ 0 ∷ 0 ∷ 0 ∷ 250 ∷ 255 ∷ 255 ∷ 255 ∷ 7 ∷ 0 ∷ 128 ∷ 255 ∷ 1 ∷ 2 ∷ 3 ∷ 4 ∷ []

block-IsByte : All IsByte block
block-IsByte = ground arith

encoded_size : fpc_encoded_size block ≡ ok 8
unfolding fpc_encoded_size fpc_encode byte_select.Word.load_little_endian
    byte_select.Word.is_sign_extended byte_select.Word.halfword_is_sign_extended_byte
    byte_select.Stream.put
encoded_size = refl

no_words :
    fpc_encode (1 ∷ 2 ∷ [])
    ≡ err (invalid_argument "FPC requires a non-empty block divisible by four bytes")
unfolding fpc_encode
no_words = refl

fpc_decode-fpc_encode_example :
    (encoded : List ℕ) × (fpc_encode block ≡ ok encoded)
    × (fpc_decode encoded (length block) ≡ ok block)
fpc_decode-fpc_encode_example = fpc_decode-fpc_encode block block-IsByte (omega arith) refl
