-- ===== src/Codec/Dictionary.antt =====
-- `make_dictionary` gives a dictionary from which the pattern selects the block.
use byte_select.Prelude.{ℕ, ◌≤◌, ◌<◌, ◌≡◌, ◌≢◌, refl, sym, ◌∙◌, ap, ap₂, arith}
use byte_select.Prelude.{Bool, true, false, List, [], ◌∷◌, map, length, get_or, set, replicate, All}
use byte_select.Prelude.{none, some, Bool-cases, inl, inr, length-replicate, length-set}
use byte_select.Prelude.{get_or-set_self, get_or-set_ne, get_or-replicate}
use byte_select.Pattern.{Pattern, Block, describes, rank, rank_of}
use byte_select.Pattern.Describes.{describes_iff}
use byte_select.Codec.{dictionary_loop, make_dictionary}
use native.Mathlib.Decide.{ℕ_discrete}

-- Every symbol is below the rank, so no array of `rank()` cells is read out of range.
pub All-lt-rank_of : (n : ℕ) (xs : List ℕ) → rank_of xs ≤ n → All (λ s. s < n) xs
unfolding rank_of
All-lt-rank_of n [] h = tt
All-lt-rank_of n (x ∷ xs) h = (omega arith, All-lt-rank_of n xs (omega arith))

-- The entries that are assigned hold what `f` gives.
abbrev Holds : (ℕ → ℕ) → Block → List Bool → Type 0
Holds f dictionary assigned = (s : ℕ) → get_or assigned s false ≡ true → get_or dictionary s 0 ≡ f s

Holds-set :
    (f : ℕ → ℕ) (dictionary : Block) (assigned : List Bool) (s : ℕ)
    → s < length dictionary
    → Holds f dictionary assigned
    → Holds f (set dictionary s (f s)) (set assigned s true)
Holds-set f dictionary assigned s hd holds j h = elim (ℕ_discrete s j) [
  | yes e ↦ rw (← e) (get_or-set_self dictionary s (f s) 0 hd)
  | no ne ↦
      get_or-set_ne dictionary s j (f s) 0 ne
      ∙ holds j (sym (get_or-set_ne assigned s j true false ne) ∙ h)
]

stays_assigned :
    (assigned : List Bool) (s j : ℕ)
    → get_or assigned s false ≡ false
    → get_or assigned j false ≡ true
    → get_or (set assigned s true) j false ≡ true
stays_assigned assigned s j new old =
    let ne : s ≢ j = λ e. cc (ap (λ (k : ℕ). get_or assigned k false) e) in
    get_or-set_ne assigned s j true false ne ∙ old

-- What the loop makes of `dictionary`: a list of the same length that agrees with `f` on the
-- assigned entries and at all the symbols.
record IsFilled (f : ℕ → ℕ) (dictionary : Block) (assigned : List Bool) (symbols : List ℕ)
    (out : Block) : Type 0 where
  same_length : length out ≡ length dictionary
  kept : (s : ℕ) → get_or assigned s false ≡ true → get_or out s 0 ≡ f s
  selects : map (λ s. get_or out s 0) symbols ≡ map f symbols

dictionary_loop-IsFilled :
    (f : ℕ → ℕ) (dictionary : Block) (assigned : List Bool) (symbols : List ℕ)
    → length assigned ≡ length dictionary
    → All (λ s. s < length dictionary) symbols
    → Holds f dictionary assigned
    → IsFilled f dictionary assigned symbols
        (dictionary_loop dictionary assigned symbols (map f symbols))
unfolding dictionary_loop
dictionary_loop-IsFilled f d a [] l below holds = record {
  same_length = refl;
  kept = holds;
  selects = refl;
}
dictionary_loop-IsFilled f d a (s ∷ symbols) l (hs, below) holds =
    elim (Bool-cases (get_or a s false)) [
      | inl old ↦
          let rest = dictionary_loop-IsFilled f d a symbols l below holds in
          rw (old, dictionary_loop)
            (record {
              same_length = rest.same_length;
              kept = rest.kept;
              selects = ap₂ ◌∷◌ (rest.kept s old) rest.selects;
            })
      | inr new ↦
          let d' = set d s (f s) in
          let a' = set a s true in
          let rest =
            dictionary_loop-IsFilled f d' a' symbols (rw (length-set, length-set) l)
              (rw length-set below) (Holds-set f d a s hs holds) in
          rw (new, dictionary_loop)
            (record {
              same_length = rest.same_length ∙ length-set d s (f s);
              kept = λ j h. rest.kept j (stays_assigned a s j new h);
              selects =
                  ap₂ ◌∷◌ (rest.kept s (get_or-set_self a s true false (omega arith))) rest.selects;
            })
    ]

dictionary_loop-IsFilled_zeros :
    (f : ℕ → ℕ) (p : Pattern)
    → IsFilled f (replicate (rank p) 0) (replicate (rank p) false) p.symbols (
        dictionary_loop
          (replicate (rank p) 0)
          (replicate (rank p) false)
          p.symbols
          (map f p.symbols))
unfolding rank
dictionary_loop-IsFilled_zeros f p =
    dictionary_loop-IsFilled f (replicate (rank p) 0) (replicate (rank p) false) p.symbols
      (length-replicate (rank p) false ∙ sym (length-replicate (rank p) 0))
      (rw length-replicate (All-lt-rank_of (rank p) p.symbols (omega arith)))
      (λ s h. cc (get_or-replicate (rank p) false s))

describes-map : (f : ℕ → ℕ) (p : Pattern) → describes p (map f p.symbols) ≡ true
describes-map f p = (describes_iff p (map f p.symbols)).1 (f, refl)

-- For a block that the pattern describes, `make_dictionary` returns a dictionary of `rank` bytes
-- from which the symbols of the pattern select the block; for any other block it returns nothing.
pub make_dictionary_lem :
    (block : Block) (p : Pattern)
    → (describes p block ≡ true
        → (d : Block) × (make_dictionary block p ≡ some d)
          × (length d ≡ rank p)
          × (map (λ s. get_or d s 0) p.symbols ≡ block))
      × (describes p block ≡ false → make_dictionary block p ≡ none)
unfolding make_dictionary rank
make_dictionary_lem block p = (
  λ h.
      let (f, e) = (describes_iff p block).0 h in
      let filled = dictionary_loop-IsFilled_zeros f p in
      rw (← e) (
        _,
        rw (describes-map f p),
        filled.same_length ∙ length-replicate (rank p) 0,
        filled.selects,
      ),
  λ h. rw h,
)
