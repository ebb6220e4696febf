-- ===== src/Pattern/Naming.antt =====
-- What `canonicalize` does to a list of symbols: it renames them one to one, by first occurrence.
use byte_select.Prelude.{ℕ, suc, ◌+◌, ◌^◌, ◌<◌, ◌≡◌, refl, sym, ◌∙◌, ap, arith}
use byte_select.Prelude.{List, [], ◌∷◌, map, length, All, Option, none, some, Table, update}
use byte_select.Prelude.{empty_table, Option-cases, ap₂, inl, inr}
use byte_select.Pattern.{canonicalize_loop, canonicalize, next_symbol}

-- `g` reads the entries of a table backwards.
abbrev pub Inverts : (ℕ → ℕ) → Table → Type 0
Inverts g t = (k i : ℕ) → t k ≡ some i → g i ≡ k

abbrev pub Below : Table → ℕ → Type 0
Below t n = (k i : ℕ) → t k ≡ some i → i < n

abbrev pub Extends : (ℕ → ℕ) → Table → Type 0
Extends f t = (k i : ℕ) → t k ≡ some i → f k ≡ i

pub Below-update : (t : Table) (n k : ℕ) → Below t n → Below (update t k (some n)) (suc n)
Below-update t n k h j i e = ground (arith, h j i)

Inverts-update :
    (g : ℕ → ℕ) (t : Table) (n k : ℕ)
    → Below t n
    → Inverts g t
    → Inverts (update g n k) (update t k (some n))
Inverts-update g t n k b h j i e = ground (arith, h j i, b j i)

pub next_symbol_lem : (n m : ℕ) → n + suc m < 2 ^ 16 → next_symbol n ≡ suc n
next_symbol_lem n m h = omega arith

abbrev pub value_or_zero : Option ℕ → ℕ
value_or_zero none = 0
value_or_zero (some i) = i

-- The names come from a function of the old symbols.
canonicalize_loop-map :
    (t : Table) (n : ℕ) (xs : List ℕ)
    → (f : ℕ → ℕ) × Extends f t × (canonicalize_loop t n xs ≡ map f xs)
unfolding canonicalize_loop
canonicalize_loop-map t n [] = (λ k. value_or_zero (t k), λ k i e. rw e, refl)
canonicalize_loop-map t n (x ∷ xs) = elim (Option-cases (t x)) [
  | inl new ↦
      let (f, extends, e) = canonicalize_loop-map (update t x (some n)) (next_symbol n) xs in
      (
        f,
        λ k i h. extends k i (ground arith),
        rw (new, canonicalize_loop) (ap₂ ◌∷◌ (sym (extends x n (ground arith))) e),
      )
  | inr (i, old) ↦
      let (f, extends, e) = canonicalize_loop-map t n xs in
      (f, extends, rw (old, canonicalize_loop) (ap₂ ◌∷◌ (sym (extends x i old)) e))
]

-- And the old symbols from a function of the names, as long as `next` does not wrap.
canonicalize_loop_inverse :
    (t : Table) (n : ℕ) (xs : List ℕ) (g : ℕ → ℕ)
    → n + length xs < 2 ^ 16
    → Below t n
    → Inverts g t
    → (g' : ℕ → ℕ) × Inverts g' t × (map g' (canonicalize_loop t n xs) ≡ xs)
unfolding canonicalize_loop
canonicalize_loop_inverse t n [] g fits below inv = (g, inv, refl)
canonicalize_loop_inverse t n (x ∷ xs) g fits below inv = elim (Option-cases (t x)) [
  | inl new ↦
      let (g', inv', e) =
        canonicalize_loop_inverse (update t x (some n)) (suc n) xs (update g n x) (omega arith)
          (Below-update t n x below) (Inverts-update g t n x below inv) in
      (
        g',
        λ k i h. inv' k i (ground arith),
        rw (new, canonicalize_loop, next_symbol_lem n (length xs) fits)
            (ap₂ ◌∷◌ (inv' x n (ground arith)) e),
      )
  | inr (i, old) ↦
      let (g', inv', e) = canonicalize_loop_inverse t n xs g (omega arith) below inv in
      (g', inv', rw (old, canonicalize_loop) (ap₂ ◌∷◌ (inv' x i old) e))
]

pub canonicalize-map : (xs : List ℕ) → (f : ℕ → ℕ) × (canonicalize xs ≡ map f xs)
unfolding canonicalize
canonicalize-map xs = let (f, _, e) = canonicalize_loop-map empty_table 0 xs in (f, e)

pub canonicalize_inverse :
    (xs : List ℕ) → length xs < 2 ^ 16 → (g : ℕ → ℕ) × (map g (canonicalize xs) ≡ xs)
unfolding canonicalize
canonicalize_inverse xs fits =
    let (g, _, e) =
      canonicalize_loop_inverse empty_table 0 xs (λ i. i) (omega arith) (λ k i e. cc)
        (λ k i e. cc) in
    (g, e)

-- The loop does not see what the symbols are called.
canonicalize_loop_renamed :
    (f g : ℕ → ℕ) (t u : Table) (n : ℕ) (xs : List ℕ)
    → All (λ x. g (f x) ≡ x) xs
    → ((j : ℕ) → g (f j) ≡ j → t j ≡ u (f j))
    → canonicalize_loop t n xs ≡ canonicalize_loop u n (map f xs)
unfolding canonicalize_loop
canonicalize_loop_renamed f g t u n [] back same = refl
canonicalize_loop_renamed f g t u n (x ∷ xs) (bx, back) same = elim (Option-cases (t x)) [
  | inl new ↦
      rw (new, sym (same x bx) ∙ new, canonicalize_loop)
        (ap (λ r. n ∷ r)
          (canonicalize_loop_renamed f g (update t x (some n)) (update u (f x) (some n))
            (next_symbol n) xs back (λ j bj. ground (arith, same j bj))))
  | inr (i, old) ↦
      rw (old, sym (same x bx) ∙ old, canonicalize_loop)
        (ap (λ r. i ∷ r) (canonicalize_loop_renamed f g t u n xs back same))
]

All-inverse : (f g : ℕ → ℕ) (xs : List ℕ) → map g (map f xs) ≡ xs → All (λ x. g (f x) ≡ x) xs
All-inverse f g [] e = tt
All-inverse f g (x ∷ xs) e = (cc, All-inverse f g xs (cc))

-- Lists that are renamings of one another have one canonical form.
pub canonicalize_renamed :
    (f g : ℕ → ℕ) (xs ys : List ℕ)
    → map f xs ≡ ys
    → map g ys ≡ xs
    → canonicalize xs ≡ canonicalize ys
unfolding canonicalize
canonicalize_renamed f g xs ys there back = rw (← there) (
    canonicalize_loop_renamed f g empty_table empty_table 0 xs (All-inverse f g xs (rw there back))
      (λ j e. refl))
