-- ===== src/Pattern/Describes.antt =====
-- The loop of `describes` and `less_equal` decides whether the values are a function of the keys.
use byte_select.Prelude.{ℕ, ◌≡◌, ◌↔◌, refl, ◌∙◌, ap, ap₂, arith, true}
use byte_select.Prelude.{List, [], ◌∷◌, map, length, some, Table, update}
use byte_select.Prelude.{empty_table, Option-cases, Bool-cases, inl, inr, ◌==◌, length-map}
use byte_select.Pattern.{agrees, describes, Pattern, Block}
use byte_select.Pattern.Naming.{Extends, value_or_zero}

-- The values are what a function gives at the keys.
abbrev pub Factors : List ℕ → List ℕ → Type 0
Factors ks xs = (f : ℕ → ℕ) × (map f ks ≡ xs)

agrees-Factors :
    (t : Table) (ks xs : List ℕ)
    → length ks ≡ length xs
    → agrees t ks xs ≡ true
    → (f : ℕ → ℕ) × Extends f t × (map f ks ≡ xs)
unfolding agrees
agrees-Factors t [] [] l h = (λ k. value_or_zero (t k), λ k i e. rw e, refl)
agrees-Factors t [] (x ∷ xs) l h = absurd (omega arith)
agrees-Factors t (k ∷ ks) [] l h = absurd (omega arith)
agrees-Factors t (k ∷ ks) (x ∷ xs) l h = elim (Option-cases (t k)) [
  | inl new ↦
      let (f, extends, e) =
        agrees-Factors (update t k (some x)) ks xs (omega arith) (ground arith) in
      (f, λ j i h'. extends j i (ground arith), ap₂ ◌∷◌ (extends k x (ground arith)) e)
  | inr (v, old) ↦
      let same : v ≡ x = ground arith in
      let (f, extends, e) = agrees-Factors t ks xs (omega arith) (ground arith) in
      (f, extends, ap₂ ◌∷◌ (extends k v old ∙ same) e)
]

Factors-agrees :
    (t : Table) (ks xs : List ℕ) (f : ℕ → ℕ) → Extends f t → map f ks ≡ xs → agrees t ks xs ≡ true
unfolding agrees
Factors-agrees t [] xs f extends e = refl
Factors-agrees t (k ∷ ks) [] f extends e = cc
Factors-agrees t (k ∷ ks) (x ∷ xs) f extends e = elim (Option-cases (t k)) [
  | inl new ↦
      rw (new, agrees)
        (Factors-agrees (update t k (some x)) ks xs f (λ j i h. ground (arith, extends j i)) (cc))
  | inr (v, old) ↦ ground (arith, extends k v old, Factors-agrees t ks xs f extends (cc))
]

pub agrees_iff :
    (ks xs : List ℕ) → length ks ≡ length xs → (agrees empty_table ks xs ≡ true) ↔ Factors ks xs
agrees_iff ks xs l = (
  λ h. (let (f, _, e) = agrees-Factors empty_table ks xs l h in (f, e)),
  λ (f, e). Factors-agrees empty_table ks xs f (λ k i h. cc) e,
)

-- A pattern describes a block exactly when some dictionary, read at the pattern's symbols, gives
-- the bytes of the block.
pub describes_iff :
    (p : Pattern) (block : Block)
    → (describes p block ≡ true) ↔ (dictionary : ℕ → ℕ) × (map dictionary p.symbols ≡ block)
unfolding describes
describes_iff p block = elim (Bool-cases (length block == length p.symbols)) [
  | inl same ↦
      let l : length p.symbols ≡ length block = ground arith in
      rw same (agrees_iff p.symbols block l)
  | inr other ↦
      rw other (
        λ h. cc,
        λ (f, e). ground (arith, length-map f p.symbols, ap (λ (xs : List ℕ). length xs) e),
      )
]
