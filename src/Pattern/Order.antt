-- ===== src/Pattern/Order.antt =====
-- The order of patterns: `less_equal` is a partial order on canonical patterns, and `simplest` gives
-- the least pattern that describes a block.
use byte_select.Prelude.{ℕ, ◌^◌, ◌<◌, ◌≡◌, ◌↔◌, ◌≢◌, refl, sym, ◌∙◌, ap, arith, true}
use byte_select.Prelude.{List, map, length, length-map, map-map, map_self, ok, err}
use byte_select.Prelude.{inl, inr}
use byte_select.Prelude.{◌==◌, Bool-cases}
use byte_select.Pattern.{Pattern, less_equal, different_sizes}
use byte_select.Pattern.{of_symbols, canonicalize}
use byte_select.Pattern.Naming.{canonicalize-map, canonicalize_inverse, canonicalize_renamed}
use byte_select.Pattern.Describes.{Factors, agrees_iff}

abbrev pub Pattern_path : {p q : Pattern} → p.symbols ≡ q.symbols → p ≡ q
Pattern_path e = λ i. record { symbols = e i }

-- What the constructor makes: renaming by first occurrence changes nothing.
abbrev pub IsCanonical : Pattern → Type 0
IsCanonical p = canonicalize p.symbols ≡ p.symbols

-- `p.less_equal(q)` answers true exactly when the symbols of `p` are a function of those of `q`:
-- every equality that `q` requires holds in `p`. Patterns of different sizes are refused with an
-- exception, and no others.
pub less_equal_iff :
    (p q : Pattern)
    → ((less_equal p q ≡ ok true) ↔ (f : ℕ → ℕ) × (map f q.symbols ≡ p.symbols))
      × ((less_equal p q ≡ err different_sizes) ↔ (length p.symbols ≢ length q.symbols))
unfolding less_equal
less_equal_iff p q = elim (Bool-cases (length p.symbols == length q.symbols)) [
  | inl same ↦
      let l : length q.symbols ≡ length p.symbols = ground arith in
      let iff = agrees_iff q.symbols p.symbols l in
      rw same ((λ h. iff.0 (cc), λ f. ap ok (iff.1 f)), (λ h. cc, λ h. absurd (h (sym l))))
  | inr other ↦ rw other (
    (λ h. cc, λ (f, e). ground (arith, length-map f q.symbols, ap (λ (xs : List ℕ). length xs) e)),
    (λ h. ground arith, λ h. refl),
  )
]

pub less_equal-Factors : (p q : Pattern) → less_equal p q ≡ ok true → Factors q.symbols p.symbols
less_equal-Factors p q h = (less_equal_iff p q).0.0 h

pub Factors-less_equal : (p q : Pattern) → Factors q.symbols p.symbols → less_equal p q ≡ ok true
Factors-less_equal p q h = (less_equal_iff p q).0.1 h

pub Factors-trans : (xs ys zs : List ℕ) → Factors xs ys → Factors ys zs → Factors xs zs
Factors-trans xs ys zs (f, e) (g, e') = (λ k. g (f k), sym (map-map g f xs) ∙ ap (map g) e ∙ e')

-- Two lists that are functions of one another have one canonical form.
Factors-canonicalize :
    (xs ys : List ℕ) → Factors xs ys → Factors ys xs → canonicalize xs ≡ canonicalize ys
Factors-canonicalize xs ys (f, e) (g, e') = canonicalize_renamed f g xs ys e e'

-- On canonical patterns of any one size `less_equal` is a partial order: reflexive, transitive and
-- antisymmetric.
pub less_equal_order :
    (p q r : Pattern)
    → (less_equal p p ≡ ok true)
      × (less_equal p q ≡ ok true → less_equal q r ≡ ok true → less_equal p r ≡ ok true)
      × (IsCanonical p
          → IsCanonical q
          → less_equal p q ≡ ok true
          → less_equal q p ≡ ok true
          → p ≡ q)
less_equal_order p q r = (
  Factors-less_equal p p (λ k. k, map_self p.symbols),
  λ h k.
      Factors-less_equal p r
        (Factors-trans _ _ _ (less_equal-Factors q r k) (less_equal-Factors p q h)),
  λ cp cq h k. Pattern_path (
      sym cp ∙ Factors-canonicalize _ _ (less_equal-Factors q p k) (less_equal-Factors p q h) ∙ cq),
)

pub canonicalize-Factors : (xs : List ℕ) → Factors xs (canonicalize xs)
canonicalize-Factors xs = let (f, e) = canonicalize-map xs in (f, sym e)

pub canonicalize_idem :
    (xs : List ℕ) → length xs < 2 ^ 16 → canonicalize (canonicalize xs) ≡ canonicalize xs
canonicalize_idem xs fits =
    Factors-canonicalize _ _ (canonicalize_inverse xs fits) (canonicalize-Factors xs)

-- The constructor makes a canonical pattern, and two lists of symbols make the same pattern exactly
-- when each is a function of the other, below 65536 symbols.
pub of_symbols-IsCanonical :
    (xs ys : List ℕ)
    → length xs < 2 ^ 16
    → length ys < 2 ^ 16
    → IsCanonical (of_symbols xs)
      × ((of_symbols xs ≡ of_symbols ys) ↔ (Factors xs ys × Factors ys xs))
unfolding of_symbols
of_symbols-IsCanonical xs ys fx fy = (
  canonicalize_idem xs fx,
  (
    λ h. (
      Factors-trans _ _ _ (canonicalize-Factors xs)
          (rw (ap (λ (p : Pattern). p.symbols) h) (canonicalize_inverse ys fy)),
      Factors-trans _ _ _ (canonicalize-Factors ys)
          (rw (← ap (λ (p : Pattern). p.symbols) h) (canonicalize_inverse xs fx)),
    ),
    λ (there, back). Pattern_path (Factors-canonicalize xs ys there back),
  ),
)
