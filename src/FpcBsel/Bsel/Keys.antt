-- ===== src/FpcBsel/Bsel/Keys.antt =====
-- The order of the keys of the map in `train_bsel` (fpc-bsel/src/bsel.cpp), and the entries of a map in this order.
use mathlib.Core.List.{Memᴰ}
use mathlib.Core.List.Memᴰ
use byte_select.Prelude.{ℕ, ◌≡◌, refl, ap₂, arith, Bool-cases, inl, inr}
use byte_select.Prelude.{Bool, true, false, ◌&&◌, ◌==◌, List, [], ◌∷◌, map}
use byte_select.FpcBsel.Bsel.{Pattern}
use byte_select.FpcBsel.Bsel.Train.{Counted, bytes_lt}
use byte_select.FpcBsel.Bsel.Trained.{AllCounted}

unfoldable pub same_symbols : List ℕ → List ℕ → Bool
same_symbols [] [] = true
same_symbols [] (y ∷ ys) = false
same_symbols (x ∷ xs) [] = false
same_symbols (x ∷ xs) (y ∷ ys) = x == y && same_symbols xs ys

pub same_symbols_refl : (xs : List ℕ) → same_symbols xs xs ≡ true
unfolding same_symbols
same_symbols_refl [] = refl
same_symbols_refl (x ∷ xs) = let rest = same_symbols_refl xs in ground arith

pub same_symbols-path : (xs ys : List ℕ) → same_symbols xs ys ≡ true → xs ≡ ys
unfolding same_symbols
same_symbols-path [] [] h = refl
same_symbols-path [] (y ∷ ys) h = absurd (ground arith)
same_symbols-path (x ∷ xs) [] h = absurd (ground arith)
same_symbols-path (x ∷ xs) (y ∷ ys) h =
    let rest : same_symbols xs ys ≡ true = ground arith in
    let first : x ≡ y = ground arith in ap₂ ◌∷◌ first (same_symbols-path xs ys rest)

pub bytes_lt-apart :
    (xs ys : List ℕ)
    → bytes_lt xs ys ≡ true
    → (same_symbols xs ys ≡ false) × (same_symbols ys xs ≡ false)
unfolding bytes_lt same_symbols
bytes_lt-apart [] [] h = absurd (ground arith)
bytes_lt-apart [] (y ∷ ys) h = (refl, refl)
bytes_lt-apart (x ∷ xs) [] h = absurd (ground arith)
bytes_lt-apart (x ∷ xs) (y ∷ ys) h = elim (Bool-cases (bytes_lt xs ys)) [
  | inl less ↦ let (l, r) = bytes_lt-apart xs ys less in (ground arith, ground arith)
  | inr other ↦ (ground arith, ground arith)
]

pub bytes_lt_trans :
    (xs ys zs : List ℕ) → bytes_lt xs ys ≡ true → bytes_lt ys zs ≡ true → bytes_lt xs zs ≡ true
unfolding bytes_lt
bytes_lt_trans xs [] zs h k = absurd (ground arith)
bytes_lt_trans xs (y ∷ ys) [] h k = absurd (ground arith)
bytes_lt_trans [] (y ∷ ys) (z ∷ zs) h k = refl
bytes_lt_trans (x ∷ xs) (y ∷ ys) (z ∷ zs) h k = elim (Bool-cases (bytes_lt xs ys)) [
  | inr other ↦ ground arith
  | inl less ↦ elim (Bool-cases (bytes_lt ys zs)) [
    | inr other ↦ ground arith
    | inl less' ↦ let rest = bytes_lt_trans xs ys zs less less' in ground arith
  ]
]

pub bytes_lt-neither : (xs ys : List ℕ) → bytes_lt xs ys ≡ false → bytes_lt ys xs ≡ false → xs ≡ ys
unfolding bytes_lt
bytes_lt-neither [] [] h k = refl
bytes_lt-neither [] (y ∷ ys) h k = absurd (ground arith)
bytes_lt-neither (x ∷ xs) [] h k = absurd (ground arith)
bytes_lt-neither (x ∷ xs) (y ∷ ys) h k =
    let first : x ≡ y = ground arith in
    let l : bytes_lt xs ys ≡ false = ground arith in
    let r : bytes_lt ys xs ≡ false = ground arith in ap₂ ◌∷◌ first (bytes_lt-neither xs ys l r)

pub pattern_path : (p q : Pattern) → p.symbols ≡ q.symbols → p ≡ q
pattern_path p q h = λ i. record { symbols = h i }

abbrev pub patterns_of : List Counted → List Pattern
patterns_of counts = map (λ (c : Counted). c.pattern) counts

abbrev pub IsLess : Pattern → Pattern → Type 0
IsLess p q = bytes_lt p.symbols q.symbols ≡ true

pub not-IsLess : (p : Pattern) → ¬ IsLess p p
not-IsLess p h =
    let (l, r) = bytes_lt-apart p.symbols p.symbols h in
    absurd (ground (arith, same_symbols_refl p.symbols))

-- The keys of the map rise.
unfoldable pub AreRising : List Counted → Type 0
AreRising [] = Unit {0}
AreRising (c ∷ counts) = AllCounted (IsLess c.pattern) counts × AreRising counts

pub AllCounted-Memᴰ :
    (P : Pattern → Type 0) (counts : List Counted) (p : Pattern)
    → AllCounted P counts
    → Memᴰ p (patterns_of counts)
    → P p
AllCounted-Memᴰ P [] p h m = absurd (Memᴰ.not-nil m)
AllCounted-Memᴰ P (c ∷ counts) p (hc, h) m = elim (Memᴰ.cases_cons m) [
  | inl e ↦ rw e hc
  | inr later ↦ AllCounted-Memᴰ P counts p h later
]

pub AllCounted-IsLess :
    (p q : Pattern) (counts : List Counted)
    → IsLess p q
    → AllCounted (IsLess q) counts
    → AllCounted (IsLess p) counts
AllCounted-IsLess p q [] h k = tt
AllCounted-IsLess p q (c ∷ counts) h (kc, k) =
    (bytes_lt_trans p.symbols q.symbols c.pattern.symbols h kc, AllCounted-IsLess p q counts h k)
