-- ===== src/Codec/Metadata.antt =====
-- The layout of the metadata word: a tag in the high bits, the pattern index in the low bits.
use byte_select.Prelude.{ℕ, ◌+◌, ◌-◌, ◌*◌, ◌/◌, ◌%◌, ◌^◌, ◌≤◌, ◌<◌, ◌≡◌, ◌≢◌, ◌∙◌, ap}
use byte_select.Prelude.{arith, true, false, length, leb, ◌==◌, Bool-cases, inl, inr}
use byte_select.Prelude.{ok, ◌⊎◌, ◌↔◌, if◌then◌else◌, bit_or, bit_and}
use byte_select.Prelude.Bits.{or_sum, and_ones, fields_read, fields_bound}
use native.Mathlib.Decide.{ℕ_discrete}
use native.Mathlib.Nat.{pow-le-pow_right, one-le-pow, div-add-mod}
use byte_select.Codec.{PatternSet, value_fits_bits, low_bits_mask, validate_metadata_layout}
use byte_select.Codec.{encode_pattern_metadata, decode_pattern_metadata, pattern_id_bits}
use byte_select.Codec.{metadata_bits}

-- The layouts that `validate_metadata_layout` accepts, in plain arithmetic.
pub record IsLayout (s : PatternSet) : Type 0 where
  pub narrow : s.metadata_bytes * 8 < 2 ^ 64
  pub tag_bits_le_bits : s.metadata_tag_bits ≤ s.metadata_bytes * 8
  pub tag_bits_le_64 : s.metadata_tag_bits ≤ 64
  pub id_bits_small : (s.metadata_tag_bits ≡ 0) ⊎ (s.metadata_bytes * 8 < s.metadata_tag_bits + 64)
  pub tag_fits : value_fits_bits s.metadata_tag_value s.metadata_tag_bits ≡ true

-- `validate_metadata_layout` accepts exactly these layouts.
pub validate_metadata_layout-IsLayout :
    (s : PatternSet)
    → s.metadata_bytes < 2 ^ 64
    → s.metadata_tag_bits < 2 ^ 64
    → validate_metadata_layout s ≡ ok tt
    → IsLayout s
unfolding validate_metadata_layout
validate_metadata_layout-IsLayout s hm ht h = record {
  narrow = ground arith;
  tag_bits_le_bits = ground arith;
  tag_bits_le_64 = ground arith;
  id_bits_small = ground arith;
  tag_fits = ground arith;
}

pub IsLayout-valid : (s : PatternSet) → IsLayout s → validate_metadata_layout s ≡ ok tt
unfolding validate_metadata_layout
IsLayout-valid s v = ground (arith, v)

pub id_bits_lem :
    (s : PatternSet) → IsLayout s → pattern_id_bits s ≡ s.metadata_bytes * 8 - s.metadata_tag_bits
id_bits_lem s v = omega arith

-- What an encoder accepts, beyond the layout.
pub record IsIndex (s : PatternSet) (index : ℕ) : Type 0 where
  pub present : index < length s.patterns
  pub fits : value_fits_bits index (pattern_id_bits s) ≡ true

abbrev pub word : PatternSet → ℕ → ℕ
word s index =
    if s.metadata_tag_bits == 0
    then index
    else bit_or (s.metadata_tag_value * 2 ^ pattern_id_bits s % 2 ^ 64) index

pub encode_accepts :
    (s : PatternSet) (index : ℕ)
    → IsLayout s
    → IsIndex s index
    → encode_pattern_metadata s index ≡ ok (word s index)
unfolding encode_pattern_metadata
encode_accepts s index v i = ground (arith, IsLayout-valid s v, i)

pub encode_needs :
    (s : PatternSet) (index w : ℕ)
    → encode_pattern_metadata s index ≡ ok w
    → IsIndex s index × (w ≡ word s index)
unfolding encode_pattern_metadata
encode_needs s index w h = (record { present = ground arith; fits = ground arith }, ground arith)

tagless_round :
    (s : PatternSet) (index w : ℕ)
    → IsLayout s
    → s.metadata_tag_bits ≡ 0
    → (encode_pattern_metadata s index ≡ ok w) ↔ (decode_pattern_metadata s w ≡ ok index)
unfolding encode_pattern_metadata decode_pattern_metadata
tagless_round s index w v t =
    let same : pattern_id_bits s ≡ metadata_bits s = omega arith in
    (λ h. ground (arith, IsLayout-valid s v, same), λ h. ground (arith, IsLayout-valid s v, same))

fits-lt : (v b : ℕ) → v < 2 ^ 64 → b ≤ 64 → value_fits_bits v b ≡ true → v < 2 ^ b
unfolding value_fits_bits
fits-lt v b hv hb h = elim (Bool-cases (leb 64 b)) [
  | inl wide ↦ let e : b ≡ 64 = ground arith in rw e hv
  | inr small ↦ ground arith
]

lt-fits : (v b : ℕ) → v < 2 ^ b → value_fits_bits v b ≡ true
unfolding value_fits_bits
lt-fits v b h = ground arith

low_bits_mask_lem : (b w : ℕ) → b < 64 → bit_and w (low_bits_mask b) ≡ w % 2 ^ b
unfolding low_bits_mask
low_bits_mask_lem b w h = ground (arith, and_ones b w)

-- The sizes are values of `size_t`, and the word has at most 64 bits.
pub record IsNarrow (s : PatternSet) : Type 0 where
  pub layout : IsLayout s
  pub tagged : s.metadata_tag_bits ≢ 0
  pub tag_value_size : s.metadata_tag_value < 2 ^ 64
  pub at_most_8 : s.metadata_bytes ≤ 8

module _ (s : PatternSet) (n : IsNarrow s) where
  abbrev low : ℕ
  low = pattern_id_bits s

  id_bits-lt : low < 64
  id_bits-lt = omega (arith, n.layout, n.tagged, n.at_most_8)

  tag-lt : s.metadata_tag_value < 2 ^ s.metadata_tag_bits
  tag-lt =
      fits-lt s.metadata_tag_value s.metadata_tag_bits n.tag_value_size n.layout.tag_bits_le_64
        n.layout.tag_fits

  bits_split : s.metadata_tag_bits + low ≡ metadata_bits s
  bits_split = omega (arith, n.layout, n.at_most_8)

  bits-le : 2 ^ metadata_bits s ≤ 2 ^ 64
  bits-le = pow-le-pow_right (omega arith) {j = 64} (omega (arith, n.at_most_8))

  word_sum :
      (index : ℕ)
      → index < 2 ^ low
      → (word s index ≡ s.metadata_tag_value * 2 ^ low + index)
        × (s.metadata_tag_value * 2 ^ low + index < 2 ^ metadata_bits s)
  word_sum index h =
      let bound : s.metadata_tag_value * 2 ^ low + index < 2 ^ metadata_bits s =
        rw bits_split at
          (fields_bound s.metadata_tag_bits low s.metadata_tag_value index tag-lt h) in
      let small : s.metadata_tag_value * 2 ^ low % 2 ^ 64 ≡ s.metadata_tag_value * 2 ^ low =
        omega (arith, bound, bits-le) in
      let apart : (s.metadata_tag_bits == 0) ≡ false = ground (arith, n.tagged) in
      (rw (apart, small) (or_sum low s.metadata_tag_value index h), bound)

  decode_accepts :
      (index w : ℕ)
      → index < length s.patterns
      → w / 2 ^ low ≡ s.metadata_tag_value
      → w % 2 ^ low ≡ index
      → value_fits_bits w (metadata_bits s) ≡ true
      → decode_pattern_metadata s w ≡ ok index
  unfolding decode_pattern_metadata
  decode_accepts index w present high rest fits =
      ground (arith, IsLayout-valid s n.layout, low_bits_mask_lem low w id_bits-lt, n.tagged)

  decode_needs :
      (index w : ℕ)
      → decode_pattern_metadata s w ≡ ok index
      → (index < length s.patterns) × (w / 2 ^ low ≡ s.metadata_tag_value) × (w % 2 ^ low ≡ index)
  unfolding decode_pattern_metadata
  decode_needs index w h =
      let mask = low_bits_mask_lem low w id_bits-lt in
      let valid = IsLayout-valid s n.layout in
      let tagged = n.tagged in (ground arith, ground arith, ground arith)

  tagged_encode_decode :
      (index w : ℕ)
      → index < 2 ^ 64
      → encode_pattern_metadata s index ≡ ok w
      → decode_pattern_metadata s w ≡ ok index
  tagged_encode_decode index w hi h =
      let (accepted, e) = encode_needs s index w h in
      let small : index < 2 ^ low =
        fits-lt index low hi (omega (arith, id_bits-lt)) accepted.fits in
      let (sum, bound) = word_sum index small in
      let (high, rest) = fields_read (2 ^ low) s.metadata_tag_value index small in
      decode_accepts index w accepted.present (rw (e, sum) high) (rw (e, sum) rest)
        (rw (e, sum) (lt-fits _ _ bound))

  tagged_decode_encode :
      (index w : ℕ)
      → w < 2 ^ 64
      → decode_pattern_metadata s w ≡ ok index
      → encode_pattern_metadata s index ≡ ok w
  tagged_decode_encode index w hw h =
      let (present, high, rest) = decode_needs index w h in
      let small : index < 2 ^ low = omega (arith, one-le-pow low 2 (omega arith)) in
      encode_accepts s index n.layout (record { present = present; fits = lt-fits index low small })
      ∙ ap ok (
          (word_sum index small).0
          ∙ omega (arith, div-add-mod w (2 ^ low), ap (λ (t : ℕ). t * 2 ^ low) high))

-- For a valid layout that is tagless or at most eight bytes wide, and 64-bit values, encoding an
-- index gives a word exactly when decoding that word gives the index.
pub encode-decode_iff :
    (s : PatternSet) (index w : ℕ)
    → IsLayout s
    → (s.metadata_tag_bits ≡ 0) ⊎ (s.metadata_bytes ≤ 8)
    → s.metadata_tag_value < 2 ^ 64
    → index < 2 ^ 64
    → w < 2 ^ 64
    → (encode_pattern_metadata s index ≡ ok w) ↔ (decode_pattern_metadata s w ≡ ok index)
encode-decode_iff s index w v (inl t) ht hi hw = tagless_round s index w v t
encode-decode_iff s index w v (inr small) ht hi hw = elim (ℕ_discrete s.metadata_tag_bits 0) [
  | yes t ↦ tagless_round s index w v t
  | no t ↦
      let n : IsNarrow s = record {
        layout = v;
        tagged = t;
        tag_value_size = ht;
        at_most_8 = small;
      } in
      (tagged_encode_decode s n index w hi, tagged_decode_encode s n index w hw)
]
