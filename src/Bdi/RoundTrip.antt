-- ===== src/Bdi/RoundTrip.antt =====
-- `bdi_decode` undoes `bdi_encode`: every candidate decodes to the block, so the smallest does.
use byte_select.Prelude.{ℕ, zero, suc, ◌+◌, ◌*◌, ◌/◌, ◌%◌, ◌≤◌, ◌<◌, ◌≡◌, refl, sym, ◌∙◌, ap, arith}
use byte_select.Prelude.{
  List, [], ◌∷◌, length, take, replicate, All, take_all, length-take-drop, ltb, ==_refl,
}
use byte_select.Prelude.{ok, true, false, not, ◌||◌, ◌==◌, Bool-cases, inl, inr, if◌then◌else◌}
use byte_select.Word.{load_little_endian, store_little_endian}
use byte_select.Word.Load.{IsByte, store-load}
use byte_select.Bdi.{mode_at, values_loop, values_for_width, all_are, all_equal, delta_range_fits}
use byte_select.Bdi.{mode_candidate, smaller, try_modes, bdi_encode, repeat_bytes, bdi_decode}
use byte_select.Bdi.Range.{repeat-all_are}
use byte_select.Bdi.Modes.{mode_candidate-decodes, values_for_width-mode_at}

-- The stream decodes to the block, of which it is a candidate.
abbrev Decodes : List ℕ → List ℕ → Type 0
Decodes block stream = bdi_decode stream (length block) ≡ ok block

smaller-Decodes :
    (block c best : List ℕ)
    → Decodes block c
    → Decodes block best
    → Decodes block (smaller c best) × (length (smaller c best) ≤ length best)
unfolding smaller
smaller-Decodes block c best hc hb = elim (Bool-cases (ltb (length c) (length best))) [
  | inl less ↦ rw less (hc, ground arith)
  | inr more ↦ rw more (hb, omega arith)
]

repeat-replicate : (k : ℕ) → repeat_bytes (store_little_endian 0 8) k ≡ replicate (k * 8) 0
unfolding repeat_bytes store_little_endian
repeat-replicate zero = refl
repeat-replicate (suc k) =
    let eight : suc k * 8 ≡ suc (suc (suc (suc (suc (suc (suc (suc (k * 8)))))))) = omega arith in
    rw eight (ap (λ t. 0 ∷ 0 ∷ 0 ∷ 0 ∷ 0 ∷ 0 ∷ 0 ∷ 0 ∷ t) (repeat-replicate k))

all_equal-all_are :
    (block : List ℕ) (left : ℕ)
    → all_equal (values_loop block 8 0 left) ≡ true
    → all_are (load_little_endian block 0 8) (values_loop block 8 0 left) ≡ true
unfolding all_equal all_are values_loop
all_equal-all_are block zero h = refl
all_equal-all_are block (suc left) h = rw ==_refl h

module _ (block : List ℕ) (hb : All IsByte block) (some : 0 < length block)
    (eight : length block % 8 ≡ 0) where
  guard : (length block == 0 || not (length block % 8 == 0)) ≡ false
  guard = ground arith

  repeated :
      (v : ℕ)
      → all_are v (values_loop block 8 0 (length block / 8)) ≡ true
      → repeat_bytes (store_little_endian v 8) (length block / 8) ≡ block
  repeated v h =
      repeat-all_are block v 0 (length block / 8) hb (omega arith) h
      ∙ take_all (length block / 8 * 8) block (omega arith)

  raw-Decodes : Decodes block (0 ∷ block)
  unfolding bdi_decode
  raw-Decodes =
      let size : (suc (length block) == length block + 1) ≡ true = ground arith in
      let filled : (suc (length block) == 0) ≡ false = ground arith in rw (filled, guard, size) refl

  zeros-Decodes :
      all_are 0 (values_loop block 8 0 (length block / 8)) ≡ true → Decodes block (1 ∷ [])
  unfolding bdi_decode
  zeros-Decodes h =
      let n : length block / 8 * 8 ≡ length block = omega arith in
      rw guard (
        ap (λ t. ok t)
          (ap (λ (t : ℕ). replicate t 0) (sym n)
            ∙ sym (repeat-replicate (length block / 8))
            ∙ repeated 0 h))

  repeated-Decodes :
      all_equal (values_loop block 8 0 (length block / 8)) ≡ true → Decodes block (2 ∷ take 8 block)
  unfolding bdi_decode
  repeated-Decodes h =
      let filled : (suc (length (take 8 block)) == 0) ≡ false = ground arith in
      let nine : (suc (length (take 8 block)) == 9) ≡ true =
        ground (arith, length-take-drop 8 0 block (omega arith)) in
      let first = store-load block 0 8 hb (omega arith) (omega arith) in
      rw (filled, guard, nine)
        (ap (λ t. ok t)
          (ap (λ (t : List ℕ). repeat_bytes t (length block / 8)) (sym first)
            ∙ repeated (load_little_endian block 0 8)
                (all_equal-all_are block (length block / 8) h)))

  try_modes-Decodes :
      (best : List ℕ) (i left : ℕ)
      → i + left ≤ 6
      → Decodes block best
      → (encoded : List ℕ) × (try_modes block best i left ≡ ok encoded)
        × Decodes block encoded
        × (length encoded ≤ length best)
  unfolding try_modes
  try_modes-Decodes best i zero h hd = (best, refl, hd, omega arith)
  try_modes-Decodes best i (suc left) h hd =
      let values =
        values_loop block (mode_at i).value_bytes 0 (length block / (mode_at i).value_bytes) in
      let c = mode_candidate i (mode_at i) values in
      rw (values_for_width-mode_at block hb some eight i (omega arith))
        (elim (Bool-cases (delta_range_fits values (mode_at i).delta_bytes)) [
          | inr wide ↦ rw wide (try_modes-Decodes best (i + 1) left (omega arith) hd)
          | inl fits ↦
              let (better, less) =
                smaller-Decodes block c best
                  (mode_candidate-decodes block hb some eight i (omega arith) fits) hd in
              let (encoded, e, back, bound) =
                try_modes-Decodes (smaller c best) (i + 1) left (omega arith) better in
              rw fits (encoded, e, back, omega (arith, bound, less))
        ])

  -- The first candidates: the raw block, all zeros, and one value repeated.
  zeros_best : List ℕ
  zeros_best = if all_are 0 (values_loop block 8 0 (length block / 8)) then 1 ∷ [] else 0 ∷ block

  zeros_best-Decodes : Decodes block zeros_best × (length zeros_best ≤ length block + 1)
  unfolding zeros_best
  zeros_best-Decodes = elim (Bool-cases (all_are 0 (values_loop block 8 0 (length block / 8)))) [
    | inl zeros ↦ rw zeros (zeros-Decodes zeros, omega arith)
    | inr other ↦ rw other (raw-Decodes, omega arith)
  ]

  first_best : List ℕ
  first_best =
      if all_equal (values_loop block 8 0 (length block / 8))
      then smaller (2 ∷ take 8 block) zeros_best
      else zeros_best

  first_best-Decodes : Decodes block first_best × (length first_best ≤ length block + 1)
  unfolding first_best
  first_best-Decodes =
      let (back, bound) = zeros_best-Decodes in
      elim (Bool-cases (all_equal (values_loop block 8 0 (length block / 8)))) [
        | inr other ↦ rw other (back, bound)
        | inl same ↦
            let (better, less) =
              smaller-Decodes block (2 ∷ take 8 block) zeros_best (repeated-Decodes same) back in
            rw same (better, omega (arith, less, bound))
      ]

  values_for_width_8 : values_for_width block 8 ≡ ok (values_loop block 8 0 (length block / 8))
  unfolding values_for_width
  values_for_width_8 = rw eight refl

-- For a block of bytes that is not empty and divides into eight bytes, `bdi_encode` returns a stream
-- that is at most one byte longer than the block, and from which `bdi_decode`, given the size of the
-- block, returns the block.
pub bdi_decode-bdi_encode :
    (block : List ℕ)
    → All IsByte block
    → 0 < length block
    → length block % 8 ≡ 0
    → (encoded : List ℕ) × (bdi_encode block ≡ ok encoded)
      × (bdi_decode encoded (length block) ≡ ok block)
      × (length encoded ≤ length block + 1)
unfolding bdi_encode zeros_best first_best
bdi_decode-bdi_encode block hb some eight =
    let (back, bound) = first_best-Decodes block hb some eight in
    let (encoded, e, decoded, less) =
      try_modes-Decodes block hb some eight (first_best block hb some eight) 0 6 (omega arith)
        back in
    (
      encoded,
      rw (guard block hb some eight, values_for_width_8 block hb some eight) e,
      decoded,
      omega (arith, less, bound),
    )
