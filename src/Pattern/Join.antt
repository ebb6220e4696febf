-- ===== src/Pattern/Join.antt =====
-- `least_upper_bound` is the join of the order of patterns.
use byte_select.Prelude.{ℕ, suc, ◌+◌, ◌*◌, ◌/◌, ◌%◌, ◌^◌, ◌<◌, ◌≡◌, refl, sym}
use byte_select.Prelude.{◌∙◌, ap, ap₂, arith, true, List, [], ◌∷◌, map, length, ok}
use byte_select.Prelude.{Table, update, empty_table, some, Option-cases, inl, inr, All, ◌==◌}
use byte_select.Prelude.Bits.{or_sum}
use byte_select.Pattern.{Pattern, less_equal, least_upper_bound, join_loop, pair_key, IsSymbol}
use byte_select.Pattern.{next_symbol, of_symbols, canonicalize, canonicalize_loop}
use byte_select.Pattern.Naming.{canonicalize_inverse}
use byte_select.Pattern.Order.{Factors-trans, less_equal-Factors, Factors-less_equal}
use byte_select.Pattern.Order.{canonicalize_idem, canonicalize-Factors, IsCanonical, Pattern_path}

abbrev zip_keys : List ℕ → List ℕ → List ℕ
zip_keys [] bs = []
zip_keys (a ∷ as') [] = []
zip_keys (a ∷ as') (b ∷ bs) = pair_key a b ∷ zip_keys as' bs

join_loop-canonicalize_loop :
    (t : Table) (n : ℕ) (xs ys : List ℕ)
    → join_loop t n xs ys ≡ canonicalize_loop t n (zip_keys xs ys)
unfolding join_loop canonicalize_loop
join_loop-canonicalize_loop t n [] ys = refl
join_loop-canonicalize_loop t n (x ∷ xs) [] = refl
join_loop-canonicalize_loop t n (x ∷ xs) (y ∷ ys) = elim (Option-cases (t (pair_key x y))) [
  | inl new ↦
      rw (new, join_loop, canonicalize_loop)
        (ap (λ r. n ∷ r)
          (join_loop-canonicalize_loop (update t (pair_key x y) (some n)) (next_symbol n) xs ys))
  | inr (i, old) ↦
      rw (old, join_loop, canonicalize_loop)
        (ap (λ r. i ∷ r) (join_loop-canonicalize_loop t n xs ys))
]

pair_key_lem : (a b : ℕ) → IsSymbol a → IsSymbol b → pair_key a b ≡ a * 2 ^ 16 + b
unfolding pair_key
pair_key_lem a b ha hb =
    let e : a * 2 ^ 16 % 2 ^ 32 ≡ a * 2 ^ 16 = omega arith in rw e (or_sum 16 a b hb)

length-zip_keys : (xs ys : List ℕ) → length xs ≡ length ys → length (zip_keys xs ys) ≡ length xs
length-zip_keys [] ys l = refl
length-zip_keys (x ∷ xs) [] l = absurd (omega arith)
length-zip_keys (x ∷ xs) (y ∷ ys) l = ap suc (length-zip_keys xs ys (omega arith))

-- Both halves of a key are read back.
keys-Factors :
    (xs ys : List ℕ)
    → length xs ≡ length ys
    → All IsSymbol xs
    → All IsSymbol ys
    → (map (λ k. k / 2 ^ 16) (zip_keys xs ys) ≡ xs) × (map (λ k. k % 2 ^ 16) (zip_keys xs ys) ≡ ys)
keys-Factors [] [] l hx hy = (refl, refl)
keys-Factors [] (y ∷ ys) l hx hy = absurd (omega arith)
keys-Factors (x ∷ xs) [] l hx hy = absurd (omega arith)
keys-Factors (x ∷ xs) (y ∷ ys) l (hx, hxs) (hy, hys) =
    let (left, right) = keys-Factors xs ys (omega arith) hxs hys in
    let key = pair_key_lem x y hx hy in (ap₂ ◌∷◌ (omega arith) left, ap₂ ◌∷◌ (omega arith) right)

zip_keys-map :
    (f g : ℕ → ℕ) (zs : List ℕ)
    → zip_keys (map f zs) (map g zs) ≡ map (λ z. pair_key (f z) (g z)) zs
zip_keys-map f g [] = refl
zip_keys-map f g (z ∷ zs) = ap (λ r. pair_key (f z) (g z) ∷ r) (zip_keys-map f g zs)

abbrev pub AreSymbols : Pattern → Type 0
AreSymbols p = All IsSymbol p.symbols

join_symbols :
    (xs ys : List ℕ)
    → canonicalize (join_loop empty_table 0 xs ys) ≡ canonicalize (canonicalize (zip_keys xs ys))
unfolding canonicalize
join_symbols xs ys = ap canonicalize (join_loop-canonicalize_loop empty_table 0 xs ys)

least_upper_bound_same_size :
    (p q : Pattern)
    → length p.symbols ≡ length q.symbols
    → least_upper_bound p q ≡ ok (of_symbols (join_loop empty_table 0 p.symbols q.symbols))
unfolding least_upper_bound
least_upper_bound_same_size p q l =
    let same : (length p.symbols == length q.symbols) ≡ true = ground arith in rw same

-- Two patterns of one size below 65536, with symbols of 16 bits, have a least upper bound: the
-- call returns a canonical pattern that is above both, and below every pattern that is above both.
pub least_upper_bound_lem :
    (p q : Pattern)
    → AreSymbols p
    → AreSymbols q
    → length p.symbols ≡ length q.symbols
    → length p.symbols < 2 ^ 16
    → (upper : Pattern) × (least_upper_bound p q ≡ ok upper)
      × IsCanonical upper
      × (less_equal p upper ≡ ok true)
      × (less_equal q upper ≡ ok true)
      × ((r : Pattern)
          → less_equal p r ≡ ok true
          → less_equal q r ≡ ok true
          → less_equal upper r ≡ ok true)
unfolding of_symbols
least_upper_bound_lem p q hp hq l fits =
    let keys = zip_keys p.symbols q.symbols in
    let small : length keys < 2 ^ 16 = rw (length-zip_keys p.symbols q.symbols l) fits in
    let upper : Pattern = record { symbols = canonicalize keys } in
    let (left, right) = keys-Factors p.symbols q.symbols l hp hq in
    let above = canonicalize_inverse keys small in
    (
      upper,
      least_upper_bound_same_size p q l
          ∙ ap ok (Pattern_path (join_symbols _ _ ∙ canonicalize_idem keys small)),
      canonicalize_idem keys small,
      Factors-less_equal p upper (Factors-trans _ _ _ above (_, left)),
      Factors-less_equal q upper (Factors-trans _ _ _ above (_, right)),
      λ r hpr hqr.
          let (f, ef) = less_equal-Factors p r hpr in
          let (g, eg) = less_equal-Factors q r hqr in
          Factors-less_equal upper r (
            Factors-trans _ _ _
              (λ z. pair_key (f z) (g z), sym (zip_keys-map f g r.symbols) ∙ ap₂ zip_keys ef eg)
              (canonicalize-Factors keys)),
    )
