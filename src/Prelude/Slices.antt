-- ===== src/Prelude/Slices.antt =====
-- Parts of a list that was put together: what is dropped, taken and read there.
use byte_select.Prelude.{
  ℕ, zero, suc, ◌+◌, ◌<◌, ◌≡◌, refl, ap, ◌∙◌, arith, List, [], ◌∷◌, ◌++◌, length, take, drop, All,
  get_or,
}
use native.Mathlib.Nat.{zero-add}

module _ {ℓ} {A : Type ℓ} where
  pub drop-append : (xs ys : List A) → drop (length xs) (xs ++ ys) ≡ ys
  drop-append [] ys = refl
  drop-append (x ∷ xs) ys = drop-append xs ys

  pub take-append : (xs ys : List A) → take (length xs) (xs ++ ys) ≡ xs
  take-append [] ys = refl
  take-append (x ∷ xs) ys = ap (λ t. x ∷ t) (take-append xs ys)

  pub All-append {κ} : (P : A → Type κ) (xs ys : List A) → All P xs → All P ys → All P (xs ++ ys)
  All-append P [] ys h k = k
  All-append P (x ∷ xs) ys (hx, h) k = (hx, All-append P xs ys h k)

  -- The part in the middle.
  pub take-drop-append :
      (xs ys zs : List A) → take (length ys) (drop (length xs) (xs ++ (ys ++ zs))) ≡ ys
  take-drop-append xs ys zs = rw (drop-append xs (ys ++ zs)) (take-append ys zs)

  pub get_or-append_behind :
      (xs ys : List A) (i : ℕ) (d : A) → get_or (xs ++ ys) (length xs + i) d ≡ get_or ys i d
  get_or-append_behind [] ys i d = ap (λ (t : ℕ). get_or ys t d) (zero-add i)
  get_or-append_behind (x ∷ xs) ys i d =
      let next : length (x ∷ xs) + i ≡ suc (length xs + i) = omega arith in
      rw next (get_or-append_behind xs ys i d)

  pub get_or-take-drop :
      (n k : ℕ) (xs : List A) (i : ℕ) (d : A)
      → i < n
      → get_or (take n (drop k xs)) i d ≡ get_or xs (k + i) d
  get_or-take-drop zero k xs i d h = absurd (omega arith)
  get_or-take-drop (suc n) zero [] i d h = refl
  get_or-take-drop (suc n) zero (x ∷ xs) zero d h = refl
  get_or-take-drop (suc n) zero (x ∷ xs) (suc i) d h =
      let here : suc (0 + i) ≡ 0 + suc i = omega arith in
      get_or-take-drop n 0 xs i d (omega arith) ∙ ap (λ (t : ℕ). get_or (x ∷ xs) t d) here
  get_or-take-drop (suc n) (suc k) [] i d h = refl
  get_or-take-drop (suc n) (suc k) (x ∷ xs) i d h =
      let here : suc (k + i) ≡ suc k + i = omega arith in
      get_or-take-drop (suc n) k xs i d h ∙ ap (λ (t : ℕ). get_or (x ∷ xs) t d) here
