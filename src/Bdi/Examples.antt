-- ===== src/Bdi/Examples.antt =====
-- Runs of the base-delta-immediate coder on small blocks.
use byte_select.Prelude.{
  ℕ, ◌+◌, ◌≤◌, ◌≡◌, refl, List, [], ◌∷◌, length, All, ok, err, arith, runtime_error,
}
use byte_select.Bdi.{bdi_encode, bdi_decode}
use byte_select.Bdi.RoundTrip.{bdi_decode-bdi_encode}
use byte_select.Word.Load.{IsByte}

abbrev block : List ℕ
block =
    100 ∷ 1 ∷ 0 ∷ 0 ∷ 0 ∷ 0 ∷ 0 ∷ 0 ∷ 107 ∷ 1 ∷ 0 ∷ 0 ∷ 0 ∷ 0 ∷ 0 ∷ 0 ∷ 90 ∷ 1 ∷ 0 ∷ 0 ∷ 0 ∷ 0 ∷ 0
    ∷ 0 ∷ []

block-IsByte : All IsByte block
block-IsByte = ground arith

-- A form of one byte, a base of eight bytes and three deltas of one.
encoded_block : bdi_encode block ≡ ok (3 ∷ 90 ∷ 1 ∷ 0 ∷ 0 ∷ 0 ∷ 0 ∷ 0 ∷ 0 ∷ 10 ∷ 17 ∷ 0 ∷ [])
unfolding bdi_encode byte_select.Bdi.values_for_width byte_select.Bdi.try_modes
    byte_select.Bdi.delta_range_fits byte_select.Bdi.maximum byte_select.Bdi.minimum
    byte_select.Bdi.values_loop byte_select.Word.load_little_endian
    byte_select.Word.store_little_endian byte_select.Bdi.smaller byte_select.Bdi.mode_candidate
    byte_select.Bdi.put_deltas byte_select.Bdi.all_are byte_select.Bdi.all_equal
encoded_block = refl

no_mode : bdi_decode (9 ∷ []) 8 ≡ err (runtime_error "invalid BDI mode")
unfolding bdi_decode byte_select.Bdi.decode_mode
no_mode = refl

bdi_decode-bdi_encode_example :
    (encoded : List ℕ) × (bdi_encode block ≡ ok encoded)
    × (bdi_decode encoded (length block) ≡ ok block)
    × (length encoded ≤ length block + 1)
bdi_decode-bdi_encode_example = bdi_decode-bdi_encode block block-IsByte (omega arith) refl
