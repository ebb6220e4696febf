-- ===== src/FpcBsel/Bsel/Fill.antt =====
-- What the dictionary of a pattern holds when the loop of `bsel_encode` has filled it.
use byte_select.Prelude.{
  ℕ, ◌+◌, ◌≤◌, ◌<◌, ◌≡◌, refl, sym, ◌∙◌, ap, ap₂, arith, true, false, Bool, Bool-cases, inl, inr,
}
use byte_select.Prelude.{
  List, [], ◌∷◌, map, length, get_or, set, All, ◌==◌, leb, Option, none, some, ok,
}
use byte_select.Prelude.{length-set, get_or-set_self, get_or-set_ne}
use native.Mathlib.Decide.{ℕ_discrete}
use byte_select.FpcBsel.Bsel.{max_element, rank_of, fill}

le_max_element : (xs : List ℕ) (n : ℕ) → max_element xs ≤ n → All (λ x. x < n + 1) xs
unfolding max_element
le_max_element [] n h = tt
le_max_element (x ∷ xs) n h = (omega arith, le_max_element xs n (omega arith))

-- Each symbol is below the rank.
pub All-lt-rank_of : (xs : List ℕ) → All (λ x. x < rank_of xs) xs
unfolding rank_of
All-lt-rank_of [] = tt
All-lt-rank_of (x ∷ xs) = le_max_element (x ∷ xs) (max_element (x ∷ xs)) (omega arith)

-- The dictionary found keeps the assigned entries, and the symbols select the block from it.
abbrev pub Filled : List ℕ → List Bool → List ℕ → List ℕ → Option (List ℕ) → Type 0
Filled dictionary assigned symbols block none = Unit {0}
Filled dictionary assigned symbols block (some d) =
    (length d ≡ length dictionary)
    × ((s : ℕ) → get_or assigned s false ≡ true → get_or d s 0 ≡ get_or dictionary s 0)
    × (map (λ s. get_or d s 0) symbols ≡ block)

pub fill-Filled :
    (dictionary : List ℕ) (assigned : List Bool) (symbols block : List ℕ)
    → length symbols ≡ length block
    → length assigned ≡ length dictionary
    → All (λ s. s < length dictionary) symbols
    → (r : Option (List ℕ)) × (fill dictionary assigned symbols block ≡ ok r)
      × Filled dictionary assigned symbols block r
unfolding fill
fill-Filled dictionary assigned [] [] l la h = (some dictionary, refl, (refl, λ s e. refl, refl))
fill-Filled dictionary assigned [] (b ∷ block) l la h = absurd (omega arith)
fill-Filled dictionary assigned (s ∷ symbols) [] l la h = absurd (omega arith)
fill-Filled dictionary assigned (s ∷ symbols) (b ∷ block) l la (hs, h) =
    let inside : leb (length dictionary) s ≡ false = ground arith in
    elim (Bool-cases (get_or assigned s false)) [
      | inl old ↦ elim (Bool-cases (get_or dictionary s 0 == b)) [
        | inr other ↦ (none, rw (inside, old, other) refl, tt)
        | inl same ↦
            let (r, e, f) = fill-Filled dictionary assigned symbols block (omega arith) la h in
            (
              r,
              rw (inside, old, same) e,
              again dictionary assigned symbols block s b r old (ground arith) f,
            )
      ]
      | inr new ↦
          let (r, e, f) =
            fill-Filled (set dictionary s b) (set assigned s true) symbols block (omega arith)
              (length-set assigned s true ∙ la ∙ sym (length-set dictionary s b))
              (rw length-set h) in
          (r, rw (inside, new) e, first dictionary assigned symbols block s b r new hs la f)
    ]
  where
    again :
        (dictionary : List ℕ) (assigned : List Bool) (symbols block : List ℕ) (s b : ℕ)
        (r : Option (List ℕ))
        → get_or assigned s false ≡ true
        → get_or dictionary s 0 ≡ b
        → Filled dictionary assigned symbols block r
        → Filled dictionary assigned (s ∷ symbols) (b ∷ block) r
    again dictionary assigned symbols block s b none old e f = tt
    again dictionary assigned symbols block s b (some d) old e (l, keep, sel) =
        (l, keep, ap₂ ◌∷◌ (keep s old ∙ e) sel)

    first :
        (dictionary : List ℕ) (assigned : List Bool) (symbols block : List ℕ) (s b : ℕ)
        (r : Option (List ℕ))
        → get_or assigned s false ≡ false
        → s < length dictionary
        → length assigned ≡ length dictionary
        → Filled (set dictionary s b) (set assigned s true) symbols block r
        → Filled dictionary assigned (s ∷ symbols) (b ∷ block) r
    first dictionary assigned symbols block s b none new hs la f = tt
    first dictionary assigned symbols block s b (some d) new hs la (l, keep, sel) = (
      l ∙ length-set dictionary s b,
      λ k e. elim (ℕ_discrete s k) [
        | yes same ↦ absurd (ground (arith, ap (λ (t : ℕ). get_or assigned t false) same))
        | no ne ↦
            keep k (get_or-set_ne assigned s k true false ne ∙ e)
            ∙ get_or-set_ne dictionary s k b 0 ne
      ],
      ap₂ ◌∷◌
          (keep s (get_or-set_self assigned s true false (omega arith))
            ∙ get_or-set_self dictionary s b 0 hs)
          sel,
    )
