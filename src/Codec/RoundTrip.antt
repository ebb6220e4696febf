-- ===== src/Codec/RoundTrip.antt =====
-- `decompress` undoes `compress` on the blocks of a valid model, and `compress` never throws there.
use byte_select.Prelude.{ℕ, ◌+◌, ◌-◌, ◌≤◌, ◌<◌, ◌≡◌, refl, sym, ◌∙◌, ap}
use byte_select.Prelude.{arith, true, false, List, [], ◌∷◌, ◌++◌, length, All, leb, ◌==◌}
use byte_select.Prelude.{Result, ok, ◌>>=◌, inl, inr, Option, none, some, get_or, replicate}
use byte_select.Prelude.{
  take_all, All-get_or, get_or-append_left, get_or-append_right, Bool-cases, append_assoc,
}
use byte_select.Prelude.{length-append, length-replicate, ap₂}
use byte_select.Pattern.{Pattern, Block, rank, describes, size}
use byte_select.Codec.{Model, PatternSet, EncodedBlock, dictionary_size, pattern_id_bits}
use byte_select.Codec.{encode_pattern_metadata, value_fits_bits, count_fits_bits}
use byte_select.Codec.{validate_model}
use byte_select.Codec.Compress.{
  set_at, empty_set, empty_pattern, resize, select, compress, decompress,
}
use byte_select.Codec.Compress.{try_patterns, try_sets, compressed_block, raw_block, sort_by_target}
use byte_select.Codec.Compress.{indices}
use byte_select.Codec.Metadata.{IsIndex, word, encode_accepts}
use byte_select.Codec.Dictionary.{make_dictionary_lem, All-lt-rank_of}
use byte_select.Codec.Sorting.{All-sort_by_target, indices-lt}
use byte_select.Codec.Validity.{IsValidSet, IsSized, SuitsPattern, validate_model_valid}

-- A call that returns, and whose block, if it found one, decodes to `block`.
data Finds (block : Block) (m : Model) : Result (Option EncodedBlock) → Type 0 where
  nothing : Finds block m (ok none)
  encoded : (e : EncodedBlock) → decompress e m ≡ ok block → Finds block m (ok (some e))

-- The step of `try_sets`: the first call decides unless it found nothing.
abbrev or_next :
    Result (Option EncodedBlock) → Result (Option EncodedBlock) → Result (Option EncodedBlock)
or_next r next = r >>= λ found. elim found [ some e ↦ ok (some e) | none ↦ next ]

Finds-or :
    (block : Block) (m : Model) (r next : Result (Option EncodedBlock))
    → Finds block m r
    → Finds block m next
    → Finds block m (or_next r next)
Finds-or block m r next nothing f = f
Finds-or block m r next (encoded e h) f = encoded e h

-- Padding the dictionary does not change what is selected.
select-resize :
    (n : ℕ) (d : Block) (symbols : List ℕ)
    → length d ≤ n
    → All (λ s. s < length d) symbols
    → select (resize n 0 d) symbols ≡ select d symbols
select-resize n d [] h below = refl
select-resize n d (s ∷ symbols) h (hs, below) =
    ap₂ ◌∷◌
      (ap (λ (t : Block). get_or (t ++ replicate (n - length d) 0) s 0) (take_all n d h)
        ∙ get_or-append_left d (replicate (n - length d) 0) s 0 hs)
      (select-resize n d symbols h below)

length-resize : (n : ℕ) (d : Block) → length d ≤ n → length (resize n 0 d) ≡ n
length-resize n d h = rw (take_all n d h) (
    length-append d (replicate (n - length d) 0)
    ∙ omega (arith, length-replicate {A = ℕ} (n - length d) 0))

pub count_fits_bits-IsIndex :
    (s : PatternSet) (index : ℕ)
    → count_fits_bits (length s.patterns) (pattern_id_bits s) ≡ true
    → index < length s.patterns
    → IsIndex s index
unfolding count_fits_bits value_fits_bits
count_fits_bits-IsIndex s index c h = record { present = h; fits = ground arith }

-- The checks of `decompress`, all passed.
decompress_accepts :
    (e : EncodedBlock) (m : Model) (p : Pattern)
    → e.compressed ≡ true
    → e.set_index < length m.sets
    → e.pattern_index < length (set_at m e.set_index).patterns
    → encode_pattern_metadata (set_at m e.set_index) e.pattern_index ≡ ok e.metadata
    → get_or (set_at m e.set_index).patterns e.pattern_index empty_pattern ≡ p
    → length p.symbols ≡ e.original_size
    → length e.dictionary ≡ dictionary_size (set_at m e.set_index)
    → decompress e m ≡ ok (select e.dictionary p.symbols)
unfolding decompress size
decompress_accepts e m p c hs hp he hg hz hd = ground arith

module _ (block : Block) (m : Model) (valid : All (IsValidSet m) m.sets)
    (sized : length block ≡ m.block_size) where
  -- A block that was filled in from a describing pattern of a set decodes to the input.
  decompress-compressed_block :
      (set_index : ℕ) (before after : List Pattern) (p : Pattern) (d : Block)
      → let s = set_at m set_index in
        IsValidSet m s
        → set_index < length m.sets
        → s.patterns ≡ before ++ (p ∷ after)
        → SuitsPattern m s p
        → length d ≡ rank p
        → select d p.symbols ≡ block
        → decompress
            (compressed_block block s set_index (length before) p (word s (length before)) d)
            m
          ≡ ok block
  unfolding compressed_block rank
  decompress-compressed_block set_index before after p d v hi split (size_ok, rank_ok) l e =
      let s = set_at m set_index in
      let here : get_or s.patterns (length before) empty_pattern ≡ p =
        rw split (get_or-append_right before p after empty_pattern) in
      let inside : length before < length s.patterns =
        rw split (omega (arith, length-append before (p ∷ after))) in
      let accepted =
        encode_accepts s (length before) v.layout
          (count_fits_bits-IsIndex s (length before) v.capacity inside) in
      let padded = length-resize (dictionary_size s) d (omega arith) in
      let chosen : select (resize (dictionary_size s) 0 d) p.symbols ≡ block =
        select-resize (dictionary_size s) d p.symbols (omega arith)
          (All-lt-rank_of (length d) p.symbols (omega arith))
        ∙ e in
      decompress_accepts
        (compressed_block block s set_index (length before) p (word s (length before)) d) m p refl
        hi inside accepted here (size_ok ∙ sym sized) padded
      ∙ ap ok chosen

  try_patterns-Finds :
      (set_index : ℕ) (before rest : List Pattern)
      → let s = set_at m set_index in
        IsValidSet m s
        → set_index < length m.sets
        → s.patterns ≡ before ++ rest
        → All (SuitsPattern m s) rest
        → Finds block m (try_patterns block s set_index (length before) rest)
  unfolding try_patterns
  try_patterns-Finds set_index before [] v hi split suits = nothing
  try_patterns-Finds set_index before (p ∷ rest) v hi split (suit, suits) =
      let s = set_at m set_index in
      let onward : Finds block m (try_patterns block s set_index (length before + 1) rest) =
        rw (← length-append before (p ∷ [])) (
          try_patterns-Finds set_index (before ++ (p ∷ [])) rest v hi
            (split ∙ sym (append_assoc before (p ∷ []) rest)) suits) in
      elim (Bool-cases (describes p block)) [
        | inr other ↦ rw ((make_dictionary_lem block p).1 other, try_patterns) onward
        | inl same ↦
            let (d, made, l, e) = (make_dictionary_lem block p).0 same in
            let inside : length before < length s.patterns =
              rw split (omega (arith, length-append before (p ∷ rest))) in
            let accepted =
              encode_accepts s (length before) v.layout
                (count_fits_bits-IsIndex s (length before) v.capacity inside) in
            let small : leb (length d) (dictionary_size s) ≡ true = ground arith in
            rw (made, try_patterns, small, accepted)
              (encoded _
                (decompress-compressed_block set_index before rest p d v hi split suit l e))
      ]

  try_sets-Finds :
      (order : List ℕ) → All (λ i. i < length m.sets) order → Finds block m (try_sets block m order)
  unfolding try_sets
  try_sets-Finds [] inside = nothing
  try_sets-Finds (i ∷ order) (hi, inside) =
      let s = set_at m i in
      let v : IsValidSet m s = All-get_or (IsValidSet m) m.sets i empty_set valid hi in
      let roomy : leb s.target_size s.metadata_bytes ≡ false = ground arith in
      rw roomy (
        Finds-or block m _ _ (try_patterns-Finds i [] s.patterns v hi refl v.suited)
          (try_sets-Finds order inside))

-- Where `try_sets` returns, `compress` returns a block that decodes to the input.
Finds-compress :
    (block : Block) (m : Model) (r : Result (Option EncodedBlock))
    → Finds block m r
    → (e : EncodedBlock) × ((r >>= λ found. elim found [
      | some e ↦ ok e
      | none ↦ ok (raw_block block)
    ])
        ≡ ok e)
      × (decompress e m ≡ ok block)
unfolding decompress raw_block
Finds-compress block m r nothing = (raw_block block, refl, ground arith)
Finds-compress block m r (encoded e h) = (e, refl, h)

-- For a model that `validate_model` accepts and a block of its block size, `compress` returns an
-- encoded block, and `decompress` gives the input back from it.
pub decompress-compress :
    (block : Block) (m : Model)
    → IsSized m
    → validate_model m ≡ ok tt
    → length block ≡ m.block_size
    → (e : EncodedBlock) × (compress block m ≡ ok e) × (decompress e m ≡ ok block)
unfolding compress
decompress-compress block m sizes accepted sized =
    let valid = validate_model_valid m sizes accepted in
    let order = sort_by_target m (indices 0 (length m.sets)) in
    let inside =
      All-sort_by_target m (λ k. k < length m.sets) (indices 0 (length m.sets))
        (indices-lt 0 (length m.sets) (length m.sets) (omega arith)) in
    let same : (length block == m.block_size) ≡ true = ground arith in
    rw same (
      Finds-compress block m (try_sets block m order)
        (try_sets-Finds block m valid sized order inside))
