-- ===== src/Trainer/Order.antt =====
-- The lists of patterns (src/trainer.cpp): what sorting keeps, and patterns that are below one of a list.
use byte_select.Prelude.{ℕ, suc, ◌≡◌, ◌⊎◌, refl, ◌∙◌, ap, arith, Bool, Bool-cases, inl, inr}
use byte_select.Prelude.{true, ◌==◌, List, [], ◌∷◌, ◌++◌, length, All, ok, ap₂}
use byte_select.Prelude.{empty_table}
use byte_select.Pattern.{Pattern, less_equal, size, agrees}
use byte_select.Trainer.{symbols_lt, symbols_eq, insert_pattern, sort_patterns, contains_pattern}

-- Some pattern of the list has the property.
unfoldable pub HasSome : (Pattern → Type 0) → List Pattern → Type 0
HasSome P [] = ⊥
HasSome P (p ∷ patterns) = P p ⊎ HasSome P patterns

module _ (P : Pattern → Type 0) where
  pub HasSome-append_left : (ps qs : List Pattern) → HasSome P ps → HasSome P (ps ++ qs)
  unfolding HasSome
  HasSome-append_left [] qs h = elim h [ ]
  HasSome-append_left (p ∷ ps) qs (inl h) = inl h
  HasSome-append_left (p ∷ ps) qs (inr h) = inr (HasSome-append_left ps qs h)

  pub HasSome-append_right : (ps qs : List Pattern) → HasSome P qs → HasSome P (ps ++ qs)
  unfolding HasSome
  HasSome-append_right [] qs h = h
  HasSome-append_right (p ∷ ps) qs h = inr (HasSome-append_right ps qs h)

  insert_pattern-HasSome :
      (p : Pattern) (ps : List Pattern) → P p ⊎ HasSome P ps → HasSome P (insert_pattern p ps)
  unfolding HasSome insert_pattern
  insert_pattern-HasSome p [] h = h
  insert_pattern-HasSome p (q ∷ ps) h = elim (Bool-cases (symbols_lt q.symbols p.symbols)) [
    | inr before ↦ rw before h
    | inl behind ↦ rw behind (elim h [
      | inl hp ↦ inr (insert_pattern-HasSome p ps (inl hp))
      | inr hs ↦ elim hs [
        | inl hq ↦ inl hq
        | inr rest ↦ inr (insert_pattern-HasSome p ps (inr rest))
      ]
    ])
  ]

  pub sort_patterns-HasSome : (ps : List Pattern) → HasSome P ps → HasSome P (sort_patterns ps)
  unfolding HasSome sort_patterns
  sort_patterns-HasSome [] h = h
  sort_patterns-HasSome (p ∷ ps) (inl h) = insert_pattern-HasSome p (sort_patterns ps) (inl h)
  sort_patterns-HasSome (p ∷ ps) (inr h) =
      insert_pattern-HasSome p (sort_patterns ps) (inr (sort_patterns-HasSome ps h))

  insert_pattern-All :
      (p : Pattern) (ps : List Pattern) → P p → All P ps → All P (insert_pattern p ps)
  unfolding insert_pattern
  insert_pattern-All p [] hp h = (hp, tt)
  insert_pattern-All p (q ∷ ps) hp (hq, h) = elim (Bool-cases (symbols_lt q.symbols p.symbols)) [
    | inr before ↦ rw before (hp, (hq, h))
    | inl behind ↦ rw behind (hq, insert_pattern-All p ps hp h)
  ]

  pub sort_patterns-All : (ps : List Pattern) → All P ps → All P (sort_patterns ps)
  unfolding sort_patterns
  sort_patterns-All [] h = tt
  sort_patterns-All (p ∷ ps) (hp, h) =
      insert_pattern-All p (sort_patterns ps) hp (sort_patterns-All ps h)

length-insert_pattern :
    (p : Pattern) (ps : List Pattern) → length (insert_pattern p ps) ≡ suc (length ps)
unfolding insert_pattern
length-insert_pattern p [] = refl
length-insert_pattern p (q ∷ ps) = elim (Bool-cases (symbols_lt q.symbols p.symbols)) [
  | inr before ↦ rw before refl
  | inl behind ↦ rw behind (ap suc (length-insert_pattern p ps))
]

pub length-sort_patterns : (ps : List Pattern) → length (sort_patterns ps) ≡ length ps
unfolding sort_patterns
length-sort_patterns [] = refl
length-sort_patterns (p ∷ ps) =
    length-insert_pattern p (sort_patterns ps) ∙ ap suc (length-sort_patterns ps)

symbols_eq-same : (xs ys : List ℕ) → symbols_eq xs ys ≡ true → xs ≡ ys
unfolding symbols_eq
symbols_eq-same [] [] h = refl
symbols_eq-same [] (y ∷ ys) h = absurd (ground arith)
symbols_eq-same (x ∷ xs) [] h = absurd (ground arith)
symbols_eq-same (x ∷ xs) (y ∷ ys) h =
    let rest : symbols_eq xs ys ≡ true = ground arith in
    let first : x ≡ y = ground arith in ap₂ ◌∷◌ first (symbols_eq-same xs ys rest)

pub pattern_same : (p q : Pattern) → symbols_eq p.symbols q.symbols ≡ true → p ≡ q
pattern_same p q h = λ i. record { symbols = symbols_eq-same p.symbols q.symbols h i }

-- A pattern that is found in a list is one of it.
pub contains_pattern-HasSome :
    (P : Pattern → Type 0) (p : Pattern) (ps : List Pattern)
    → P p
    → contains_pattern p ps ≡ true
    → HasSome P ps
unfolding HasSome contains_pattern
contains_pattern-HasSome P p [] hp h = absurd (ground arith)
contains_pattern-HasSome P p (q ∷ ps) hp h = elim (Bool-cases (symbols_eq q.symbols p.symbols)) [
  | inl same ↦ inl (rw (pattern_same q p same) hp)
  | inr other ↦ inr (contains_pattern-HasSome P p ps hp (rw other at h))
]

-- Patterns of one size are compared without an exception.
pub less_equal_ok :
    (p q : Pattern) → length p.symbols ≡ length q.symbols → (b : Bool) × (less_equal p q ≡ ok b)
unfolding less_equal size
less_equal_ok p q l =
    let same : (length p.symbols == length q.symbols) ≡ true = ground arith in
    (agrees empty_table q.symbols p.symbols, rw same refl)
