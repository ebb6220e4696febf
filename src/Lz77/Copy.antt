-- ===== src/Lz77/Copy.antt =====
-- What `copy_back` appends (src/baseline.cpp): the bytes of a match, which may overlap their source.
use byte_select.Prelude.{ℕ, zero, suc, ◌+◌, ◌-◌, ◌≤◌, ◌<◌, ◌≡◌, refl, sym, ◌∙◌, ap, arith}
use byte_select.Prelude.{List, [], ◌∷◌, ◌++◌, length, get_or, take}
use byte_select.Prelude.Slices.{get_or-take-drop}
use byte_select.Lz77.{copy_back}
use byte_select.Lz77.Match.{Matches}

pub length-take : (n : ℕ) (xs : List ℕ) → n ≤ length xs → length (take n xs) ≡ n
length-take zero xs h = refl
length-take (suc n) [] h = absurd (omega arith)
length-take (suc n) (x ∷ xs) h = ap suc (length-take n xs (omega arith))

pub take_next :
    (n : ℕ) (xs : List ℕ) → n < length xs → take n xs ++ (get_or xs n 0 ∷ []) ≡ take (suc n) xs
take_next zero [] h = absurd (omega arith)
take_next zero (x ∷ xs) h = refl
take_next (suc n) [] h = absurd (omega arith)
take_next (suc n) (x ∷ xs) h = ap (λ (t : List ℕ). x ∷ t) (take_next n xs (omega arith))

get_or-take : (n : ℕ) (xs : List ℕ) (i : ℕ) → i < n → get_or (take n xs) i 0 ≡ get_or xs i 0
get_or-take n xs i h =
    let start : 0 + i ≡ i = omega arith in
    get_or-take-drop n 0 xs i 0 h ∙ ap (λ (k : ℕ). get_or xs k 0) start

-- The first bytes of the block grow by a match that ends in the block.
pub copy_back-Matches :
    (block : List ℕ) (offset position n : ℕ)
    → 0 < offset
    → offset ≤ position
    → position + n ≤ length block
    → Matches block (position - offset) position n
    → copy_back (take position block) offset n ≡ take (position + n) block
unfolding copy_back
copy_back-Matches block offset p zero h₀ h₁ h₂ m = ap (λ (k : ℕ). take k block) (omega arith)
copy_back-Matches block offset p (suc n) h₀ h₁ h₂ m =
    let size = length-take p block (omega arith) in
    let here : p - offset + 0 ≡ p - offset = omega arith in
    let there : p + 0 ≡ p = omega arith in
    let same : get_or block (p - offset) 0 ≡ get_or block p 0 =
      ap (λ (k : ℕ). get_or block k 0) (sym here)
      ∙ (m 0 (omega arith)).1
      ∙ ap (λ (k : ℕ). get_or block k 0) there in
    let source : p - offset < p = omega arith in
    let later : Matches block (p + 1 - offset) (p + 1) n = λ k hk.
      let a : p + 1 - offset + k ≡ p - offset + suc k = omega arith in
      let b : p + 1 + k ≡ p + suc k = omega arith in rw (a, b) (m (suc k) (omega arith)) in
    let one : suc p ≡ p + 1 = omega arith in
    let grown : take p block ++ (get_or block p 0 ∷ []) ≡ take (p + 1) block =
      take_next p block (omega arith) ∙ ap (λ (k : ℕ). take k block) one in
    let end : p + 1 + n ≡ p + suc n = omega arith in
    rw (size, get_or-take p block (p - offset) source, same, grown)
      (copy_back-Matches block offset (p + 1) n h₀ (omega arith) (omega arith) later
        ∙ ap (λ (k : ℕ). take k block) end)
