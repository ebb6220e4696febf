-- ===== src/Bdi/Modes.antt =====
-- The stream of a mode, which `bdi_decode` takes back to the block.
use byte_select.Prelude.{
  ℕ, zero, suc, ◌+◌, ◌-◌, ◌*◌, ◌/◌, ◌%◌, ◌^◌, ◌≤◌, ◌<◌, ◌≡◌, refl, ◌∙◌, ap, arith,
}
use byte_select.Prelude.{List, [], ◌∷◌, ◌++◌, length, All, take_all, length-append}
use byte_select.Prelude.{ok, true, false, not, ◌||◌, ◌==◌, leb}
use native.Mathlib.Nat.{div-add-mod', pow-le-pow_right}
use byte_select.Word.{load_little_endian, store_little_endian}
use byte_select.Word.Load.{IsByte}
use byte_select.Word.Store.{length-store, store-IsByte, load-store}
use byte_select.Bdi.{
  Mode, mode_at, mode_of, values_loop, values_for_width, minimum, delta_range_fits,
}
use byte_select.Bdi.{put_deltas, mode_candidate, add_deltas, decode_mode, bdi_decode}
use byte_select.Bdi.Range.{
  InRange, All-both, All-mono, delta_range_fits-InRange, values_loop-lt, minimum-lt,
  length-values_loop,
}
use byte_select.Bdi.Deltas.{length-put_deltas, put_deltas-IsByte, add_deltas-put_deltas}

-- What the rows of the table have in common, for a block of `n` bytes.
record Fits (mode : Mode) (n : ℕ) : Type 0 where
  value_some : 1 ≤ mode.value_bytes
  value_word : mode.value_bytes ≤ 8
  delta_word : mode.delta_bytes ≤ 8
  same_base : mode.base_bytes ≡ mode.value_bytes
  whole : n % mode.value_bytes ≡ 0

mode_of-Fits : (v d n : ℕ) → 1 ≤ v → v ≤ 8 → d ≤ 8 → n % v ≡ 0 → Fits (mode_of v d v) n
mode_of-Fits v d n h₁ h₂ h₃ h₄ = record {
  value_some = h₁;
  value_word = h₂;
  delta_word = h₃;
  same_base = refl;
  whole = h₄;
}

mode_at-Fits : (i n : ℕ) → i < 6 → n % 8 ≡ 0 → Fits (mode_at i) n
mode_at-Fits zero n hi h =
    mode_of-Fits 8 1 n (omega arith) (omega arith) (omega arith) (omega arith)
mode_at-Fits (suc zero) n hi h =
    mode_of-Fits 8 2 n (omega arith) (omega arith) (omega arith) (omega arith)
mode_at-Fits (suc (suc zero)) n hi h =
    mode_of-Fits 8 4 n (omega arith) (omega arith) (omega arith) (omega arith)
mode_at-Fits (suc (suc (suc zero))) n hi h =
    mode_of-Fits 4 1 n (omega arith) (omega arith) (omega arith) (omega arith)
mode_at-Fits (suc (suc (suc (suc zero)))) n hi h =
    mode_of-Fits 4 2 n (omega arith) (omega arith) (omega arith) (omega arith)
mode_at-Fits (suc (suc (suc (suc (suc zero))))) n hi h =
    mode_of-Fits 2 1 n (omega arith) (omega arith) (omega arith) (omega arith)
mode_at-Fits (suc (suc (suc (suc (suc (suc i)))))) n hi h = absurd (omega arith)

-- A block of bytes that `bdi_encode` takes, and the values of one of the modes.
module _ (block : List ℕ) (hb : All IsByte block) (some : 0 < length block)
    (eight : length block % 8 ≡ 0) where
  module _ (mode : Mode) (f : Fits mode (length block)) where
    count : ℕ
    count = length block / mode.value_bytes

    values : List ℕ
    values = values_loop block mode.value_bytes 0 count

    count_room : 0 + count * mode.value_bytes ≡ length block
    unfolding count
    count_room = omega (arith, div-add-mod' (length block) mode.value_bytes, f.whole)

    count_some : 0 < count
    count_some = grind (arith, count_room)

    values-lt : All (λ v. v < 2 ^ (8 * mode.value_bytes)) values
    unfolding values
    values-lt =
        values_loop-lt block mode.value_bytes 0 count hb (omega (arith, count_room)) f.value_word

    minimum_small : minimum values < 2 ^ (8 * mode.value_bytes)
    unfolding values
    minimum_small =
        minimum-lt values (2 ^ (8 * mode.value_bytes))
          (omega (arith, count_some, length-values_loop block mode.value_bytes 0 count)) values-lt

    deltas : List ℕ
    deltas = put_deltas (minimum values) mode.delta_bytes values

    -- The stream of the mode: a byte, the base and the deltas.
    stream : ℕ → List ℕ
    stream form = form ∷ (store_little_endian (minimum values) mode.base_bytes ++ deltas)

    length-stream :
        (form : ℕ) → length (stream form) ≡ 1 + mode.base_bytes + count * mode.delta_bytes
    unfolding stream deltas values
    length-stream form = omega (
      arith,
      length-append (store_little_endian (minimum values) mode.base_bytes) deltas,
      length-store (minimum values) mode.base_bytes,
      length-put_deltas (minimum values) mode.delta_bytes values
          ∙ ap (λ (t : ℕ). t * mode.delta_bytes)
              (length-values_loop block mode.value_bytes 0 count),
    )

    stream_base :
        (form : ℕ)
        → form < 2 ^ 8
        → load_little_endian (stream form) 1 mode.base_bytes ≡ minimum values
    unfolding stream deltas
    stream_base form hf =
        load-store (form ∷ []) deltas (minimum values) mode.base_bytes (hf, tt)
          (put_deltas-IsByte (minimum values) mode.delta_bytes values)
          (omega (arith, f.same_base, f.value_word)) (rw f.same_base minimum_small)

    stream-values :
        (form : ℕ)
        → form < 2 ^ 8
        → delta_range_fits values mode.delta_bytes ≡ true
        → add_deltas (stream form) (minimum values) mode (1 + mode.base_bytes) count ≡ block
    unfolding stream deltas values
    stream-values form hf h =
        let base = store_little_endian (minimum values) mode.base_bytes in
        let top : 2 ^ (8 * mode.value_bytes) ≤ 2 ^ 64 =
          pow-le-pow_right (omega arith) {j = 64} (omega (arith, f.value_word)) in
        let words : All (λ v. v < 2 ^ 64) values =
          All-mono {P = λ v. v < 2 ^ (8 * mode.value_bytes)} values (λ v hv. omega (arith, top, hv))
            values-lt in
        let fits =
          All-both (InRange (minimum values) mode.delta_bytes) (λ v. v < 2 ^ 64) values
            (delta_range_fits-InRange values mode.delta_bytes h) words in
        let place : 1 + mode.base_bytes ≡ length (form ∷ base) =
          omega (arith, length-store (minimum values) mode.base_bytes) in
        let back =
          add_deltas-put_deltas block mode (minimum values) (form ∷ base) 0 count hb
            (hf, store-IsByte (minimum values) mode.base_bytes) f.delta_word f.value_word
            (omega (arith, count_room)) fits in
        rw place (back ∙ take_all (count * mode.value_bytes) block (omega (arith, count_room)))

  -- The candidate of a mode that fits decodes to the block.
  pub mode_candidate-decodes :
      (i : ℕ)
      → i < 6
      → delta_range_fits
          (values_loop block (mode_at i).value_bytes 0 (length block / (mode_at i).value_bytes))
          (mode_at i).delta_bytes
        ≡ true
      → bdi_decode
          (mode_candidate i
            (mode_at i)
            (values_loop block (mode_at i).value_bytes 0 (length block / (mode_at i).value_bytes)))
          (length block)
        ≡ ok block
  unfolding bdi_decode decode_mode mode_candidate stream deltas values count
  mode_candidate-decodes i hi h =
      let f = mode_at-Fits i (length block) hi eight in
      let mode = mode_at i in
      let form : (3 + i) % 2 ^ 8 ≡ 3 + i = omega arith in
      let n : (length block == 0 || not (length block % 8 == 0)) ≡ false = ground arith in
      let known : leb 6 i ≡ false = ground arith in
      let index : 3 + i - 3 ≡ i = omega arith in
      let raw : (3 + i == 0) ≡ false = ground arith in
      let zeros : (3 + i == 1) ≡ false = ground arith in
      let same : (3 + i == 2) ≡ false = ground arith in
      let whole = f.whole in
      let aligned : (length block % mode.value_bytes == 0) ≡ true = ground arith in
      let size : (length (stream mode f (3 + i))
            == 1 + mode.base_bytes + count mode f * mode.delta_bytes)
          ≡ true =
        ground (arith, length-stream mode f (3 + i)) in
      let filled : (suc (
              length
                (store_little_endian (minimum (values mode f)) mode.base_bytes ++ deltas mode f))
            == 0)
          ≡ false =
        ground arith in
      rw (form, filled, n, raw, zeros, same, index, known, aligned, size)
        (rw (stream_base mode f (3 + i) (omega arith))
          (ap (λ t. ok t) (stream-values mode f (3 + i) (omega arith) h)))

  -- The values of a mode are read without an exception.
  pub values_for_width-mode_at :
      (i : ℕ)
      → i < 6
      → values_for_width block (mode_at i).value_bytes
        ≡ ok (values_loop block (mode_at i).value_bytes 0 (length block / (mode_at i).value_bytes))
  unfolding values_for_width
  values_for_width-mode_at i hi =
      let f = mode_at-Fits i (length block) hi eight in
      let width = (mode_at i).value_bytes in
      let value_some = f.value_some in
      let whole = f.whole in
      let fine : (width == 0 || not (length block % width == 0)) ≡ false = ground arith in
      rw fine refl
