-- ===== src/FpcBsel/Parts/Copy.antt =====
-- What `copy_n` writes.
use byte_select.Prelude.{
  ℕ, zero, suc, ◌+◌, ◌≤◌, ◌<◌, ◌≡◌, refl, sym, ◌∙◌, ap, arith, List, length, get_or, set,
}
use byte_select.Prelude.{length-set, get_or-set_self, get_or-set_ne}
use native.Mathlib.Nat.{add-zero}
use byte_select.FpcBsel.Parts.{copy_n}

pub length-copy_n :
    (source target : List ℕ) (from to n : ℕ)
    → length (copy_n source from target to n) ≡ length target
unfolding copy_n
length-copy_n source target from to zero = refl
length-copy_n source target from to (suc n) =
    length-copy_n source (set target to (get_or source from 0)) (from + 1) (to + 1) n
    ∙ length-set target to (get_or source from 0)

-- The places before the first are left alone.
pub get_or-copy_n_below :
    (source target : List ℕ) (from to n k : ℕ)
    → k < to
    → get_or (copy_n source from target to n) k 0 ≡ get_or target k 0
unfolding copy_n
get_or-copy_n_below source target from to zero k h = refl
get_or-copy_n_below source target from to (suc n) k h =
    get_or-copy_n_below source (set target to (get_or source from 0)) (from + 1) (to + 1) n k
      (omega arith)
    ∙ get_or-set_ne target to k (get_or source from 0) 0 (omega arith)

pub get_or-copy_n :
    (source target : List ℕ) (from to n k : ℕ)
    → to + n ≤ length target
    → k < n
    → get_or (copy_n source from target to n) (to + k) 0 ≡ get_or source (from + k) 0
unfolding copy_n
get_or-copy_n source target from to zero k room h = absurd (omega arith)
get_or-copy_n source target from to (suc n) zero room h =
    let l = length-set target to (get_or source from 0) in
    rw (add-zero, add-zero)
      (get_or-copy_n_below source (set target to (get_or source from 0)) (from + 1) (to + 1) n to
          (omega arith)
        ∙ get_or-set_self target to (get_or source from 0) 0 (omega arith))
get_or-copy_n source target from to (suc n) (suc k) room h =
    let l = length-set target to (get_or source from 0) in
    let there : to + suc k ≡ to + 1 + k = omega arith in
    let here : from + suc k ≡ from + 1 + k = omega arith in
    rw (there, here)
      (get_or-copy_n source (set target to (get_or source from 0)) (from + 1) (to + 1) n k
        (omega arith) (omega arith))

-- Two sources with the same bytes.
pub copy_n_same :
    (source other target : List ℕ) (from from' to n : ℕ)
    → ((k : ℕ) → k < n → get_or source (from + k) 0 ≡ get_or other (from' + k) 0)
    → copy_n source from target to n ≡ copy_n other from' target to n
unfolding copy_n
copy_n_same source other target from from' to zero h = refl
copy_n_same source other target from from' to (suc n) h =
    let first : get_or source from 0 ≡ get_or other from' 0 =
      ap (λ (t : ℕ). get_or source t 0) (sym (add-zero from))
      ∙ h 0 (omega arith)
      ∙ ap (λ (t : ℕ). get_or other t 0) (add-zero from') in
    rw first (
      copy_n_same source other (set target to (get_or other from' 0)) (from + 1) (from' + 1)
        (to + 1) n
        (λ k hk.
          ap (λ (t : ℕ). get_or source t 0) (omega arith)
          ∙ h (suc k) (omega arith)
          ∙ ap (λ (t : ℕ). get_or other t 0) (omega arith)))
