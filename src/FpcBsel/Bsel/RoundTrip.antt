-- ===== src/FpcBsel/Bsel/RoundTrip.antt =====
-- `bsel_decode` undoes `bsel_encode` (fpc-bsel/src/bsel.cpp).
use byte_select.Prelude.{
  ℕ, ◌+◌, ◌*◌, ◌/◌, ◌%◌, ◌^◌, ◌≤◌, ◌<◌, ◌≡◌, refl, sym, ◌∙◌, ap, arith, fun_ext,
}
use byte_select.Prelude.{
  Bool, Option-cases, Bool-cases, inl, inr, true, false, bit_or, ltb, leb, ◌==◌,
}
use byte_select.Prelude.{
  List, [], ◌∷◌, ◌++◌, map, length, get_or, replicate, All, Option, none, some,
}
use byte_select.Prelude.{ok}
use byte_select.Prelude.{append_assoc, length-append, length-replicate, get_or-append_right}
use byte_select.Prelude.Bits.{or_comm, or_sum}
use byte_select.Prelude.Slices.{get_or-append_behind}
use byte_select.FpcBsel.Bsel.{Pattern, BselModel, rank, pattern_at, put_u16, get_u16, better}
use byte_select.FpcBsel.Bsel.{encode_patterns, bsel_encode, bsel_decode}
use byte_select.FpcBsel.Bsel.Fill.{fill-Filled, Filled, All-lt-rank_of}

-- A model whose patterns have numbers of two bytes and the size of the blocks.
pub record IsModel (m : BselModel) : Type 0 where
  pub few : length m.patterns ≤ 65536
  pub sized : All (λ (p : Pattern). length p.symbols ≡ m.block_size) m.patterns

-- The stream of a pattern that describes the block, and its dictionary.
pub record IsStream (block : List ℕ) (m : BselModel) (e : List ℕ) : Type 0 where
  pub id : ℕ
  pub dictionary : List ℕ
  pub inside : id < length m.patterns
  pub two_bytes : id < 65536
  pub stream : e ≡ (id % 2 ^ 8) ∷ (id / 2 ^ 8 % 2 ^ 8) ∷ dictionary
  pub size : length dictionary ≡ rank (pattern_at m id)
  pub selects : map (λ s. get_or dictionary s 0) (pattern_at m id).symbols ≡ block

-- The two bytes of a number, read at the place where they stand.
pub u16_bytes :
    (id : ℕ) → id < 65536 → bit_or (id % 2 ^ 8) (id / 2 ^ 8 % 2 ^ 8 * 2 ^ 8 % 2 ^ 64) ≡ id
u16_bytes id h =
    let small : id / 2 ^ 8 % 2 ^ 8 * 2 ^ 8 % 2 ^ 64 ≡ id / 2 ^ 8 % 2 ^ 8 * 2 ^ 8 = omega arith in
    rw (small, or_comm (id % 2 ^ 8) (id / 2 ^ 8 % 2 ^ 8 * 2 ^ 8))
      (or_sum 8 (id / 2 ^ 8 % 2 ^ 8) (id % 2 ^ 8) (omega arith) ∙ omega arith)

pub bsel_decode-IsStream :
    (block : List ℕ) (m : BselModel) (e : List ℕ) → IsStream block m e → bsel_decode e m ≡ ok block
unfolding bsel_decode get_u16
bsel_decode-IsStream block m e s =
    let low = s.id % 2 ^ 8 in
    let high = s.id / 2 ^ 8 % 2 ^ 8 in
    let behind : (λ (symbol : ℕ). get_or (low ∷ high ∷ s.dictionary) (2 + symbol) 0)
        ≡ (λ (symbol : ℕ). get_or s.dictionary symbol 0) =
      fun_ext (λ (symbol : ℕ). get_or-append_behind (low ∷ high ∷ []) s.dictionary symbol 0) in
    let room : ltb (length (low ∷ high ∷ s.dictionary)) (0 + 2) ≡ false = ground arith in
    let known : leb (length m.patterns) s.id ≡ false = ground (arith, s.inside) in
    let whole : (length (low ∷ high ∷ s.dictionary) == 2 + rank (pattern_at m s.id)) ≡ true =
      ground (arith, s.size) in
    rw (s.stream, room, u16_bytes s.id s.two_bytes, known, whole)
      (ap (λ (f : ℕ → ℕ). ok (map f (pattern_at m s.id).symbols)) behind ∙ ap (λ t. ok t) s.selects)

-- What the encoder has found so far.
abbrev pub IsFound : List ℕ → BselModel → Option (List ℕ) → Type 0
IsFound block m none = Unit {0}
IsFound block m (some e) = IsStream block m e

IsFound-better :
    (block : List ℕ) (m : BselModel) (e : List ℕ) (best : Option (List ℕ))
    → IsStream block m e
    → IsFound block m best
    → IsFound block m (better e best)
unfolding better
IsFound-better block m e none h k = h
IsFound-better block m e (some b) h k = elim (Bool-cases (ltb (length e) (length b))) [
  | inl shorter ↦ rw shorter h
  | inr longer ↦ rw longer k
]

module _ (block : List ℕ) (m : BselModel) where
  found_here :
      (before after : List Pattern) (p : Pattern) (d : List ℕ)
      → m.patterns ≡ before ++ (p ∷ after)
      → length before < 65536
      → length d ≡ rank p
      → map (λ s. get_or d s 0) p.symbols ≡ block
      → IsStream block m (((length before % 2 ^ 8) ∷ (length before / 2 ^ 8 % 2 ^ 8) ∷ []) ++ d)
  found_here before after p d split small l chosen =
      let here : pattern_at m (length before) ≡ p =
        rw split (get_or-append_right before p after (record { symbols = [] })) in
      record {
        id = length before;
        dictionary = d;
        inside = rw split (omega (arith, length-append before (p ∷ after)));
        two_bytes = small;
        stream = refl;
        size = rw here l;
        selects = rw here chosen;
      }

  encode_patterns-IsFound :
      (before rest : List Pattern) (best : Option (List ℕ))
      → m.patterns ≡ before ++ rest
      → length m.patterns ≤ 65536
      → All (λ (p : Pattern). length p.symbols ≡ length block) rest
      → IsFound block m best
      → (r : Option (List ℕ)) × (encode_patterns block (length before) best rest ≡ ok r)
        × IsFound block m r
  unfolding encode_patterns put_u16 rank
  encode_patterns-IsFound before [] best split few sized h = (best, refl, h)
  encode_patterns-IsFound before (p ∷ rest) best split few (same, sized) h =
      let (found, filled, f) =
        fill-Filled (replicate (rank p) 0) (replicate (rank p) false) p.symbols block same
          (length-replicate {A = Bool} (rank p) false ∙ sym (length-replicate {A = ℕ} (rank p) 0))
          (rw (length-replicate {A = ℕ} (rank p) 0) (All-lt-rank_of p.symbols)) in
      let small : length before < 65536 =
        omega (arith, ap length split, length-append before (p ∷ rest)) in
      let fits : ltb 0xffff (length before) ≡ false = ground arith in
      let equal : (length p.symbols == length block) ≡ true = ground arith in
      let next = split ∙ sym (append_assoc before (p ∷ []) rest) in
      let onward : (b : Option (List ℕ))
          → IsFound block m b
          → (r : Option (List ℕ)) × (encode_patterns block (length before + 1) b rest ≡ ok r)
            × IsFound block m r =
        λ b k.
          rw (length-append before (p ∷ [])) at
            (encode_patterns-IsFound (before ++ (p ∷ [])) rest b next few sized k) in
      elim (Option-cases found) [
        | inl other ↦ let (r, e, k) = onward best h in (r, rw (equal, filled, other) e, k)
        | inr (d, hit) ↦
            let (l, keep, chosen) : Filled (replicate (rank p) 0) (replicate (rank p) false)
                p.symbols block (some d) =
              rw hit at f in
            let stream =
              found_here before rest p d split small (l ∙ length-replicate {A = ℕ} (rank p) 0)
                chosen in
            let (r, e, k) = onward (better _ best) (IsFound-better block m _ best stream h) in
            (r, rw (equal, filled, hit, fits) e, k)
      ]

-- For a model whose patterns fit, `bsel_encode` returns for a block of the model's size, and a
-- stream that it finds is that of a pattern which describes the block.
pub bsel_encode-IsFound :
    (block : List ℕ) (m : BselModel)
    → IsModel m
    → length block ≡ m.block_size
    → (r : Option (List ℕ)) × (bsel_encode block m ≡ ok r) × IsFound block m r
unfolding bsel_encode
bsel_encode-IsFound block m valid sized =
    let equal : (length block == m.block_size) ≡ true = ground arith in
    let (r, e, k) =
      encode_patterns-IsFound block m [] m.patterns none refl valid.few (rw sized valid.sized) tt in
    (r, rw equal e, k)

-- For a model whose patterns fit, `bsel_encode` returns for a block of the model's size, and from a
-- stream that it finds `bsel_decode` returns the block.
pub bsel_decode-bsel_encode :
    (block : List ℕ) (m : BselModel)
    → IsModel m
    → length block ≡ m.block_size
    → (r : Option (List ℕ)) × (bsel_encode block m ≡ ok r)
      × ((e : List ℕ) → r ≡ some e → bsel_decode e m ≡ ok block)
bsel_decode-bsel_encode block m valid sized =
    let (r, e, k) = bsel_encode-IsFound block m valid sized in
    (r, e, λ s hit. bsel_decode-IsStream block m s (rw hit at k))
