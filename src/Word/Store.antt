-- ===== src/Word/Store.antt =====
-- Loading what was stored gives the value back.
use byte_select.Prelude.{ℕ, zero, suc, ◌+◌, ◌*◌, ◌/◌, ◌^◌, ◌≤◌, ◌<◌, ◌≡◌, refl, sym, ◌∙◌, ap, arith}
use byte_select.Prelude.{List, ◌++◌, length, take, All, length-append}
use byte_select.Prelude.Bits.{two_pow_add}
use byte_select.Word.{load_little_endian, store_loop, store_little_endian}
use byte_select.Prelude.Slices.{drop-append, take-append, All-append}
use byte_select.Word.Load.{number, IsByte, store_loop_shift, load_little_endian-number}

pub length-store : (value width : ℕ) → length (store_little_endian value width) ≡ width
unfolding store_little_endian
length-store value width = length_loop value 0 width
  where
    length_loop : (value i left : ℕ) → length (store_loop value i left) ≡ left
    length_loop value i zero = refl
    length_loop value i (suc left) = ap suc (length_loop value (i + 1) left)

pub store-IsByte : (value width : ℕ) → All IsByte (store_little_endian value width)
unfolding store_little_endian
store-IsByte value width = loop_bytes value 0 width
  where
    loop_bytes : (value i left : ℕ) → All IsByte (store_loop value i left)
    loop_bytes value i zero = tt
    loop_bytes value i (suc left) = (omega arith, loop_bytes value (i + 1) left)

pub number-store :
    (width value : ℕ) → value < 2 ^ (8 * width) → number (store_little_endian value width) ≡ value
unfolding store_little_endian number store_loop
number-store zero value h = omega (arith, h)
number-store (suc width) value h =
    let eight : 8 * suc width ≡ 8 + 8 * width = omega arith in
    let bound : value < 256 * 2 ^ (8 * width) = rw (eight, two_pow_add 8 (8 * width)) at h in
    let rest = number-store width (value / 256) (omega (arith, bound)) in
    rw (store_loop_shift value 0 width, rest) (omega arith)

-- A word that stands behind some bytes.
pub load-store :
    (before after : List ℕ) (value width : ℕ)
    → All IsByte before
    → All IsByte after
    → width ≤ 8
    → value < 2 ^ (8 * width)
    → load_little_endian
        (before ++ (store_little_endian value width ++ after))
        (length before)
        width
      ≡ value
load-store before after value width hb ha h8 hv =
    let stored = store_little_endian value width in
    let all = before ++ (stored ++ after) in
    let l = length-store value width in
    let l₁ = length-append before (stored ++ after) in
    let l₂ = length-append stored after in
    let bytes =
      All-append IsByte before (stored ++ after) hb
        (All-append IsByte stored after (store-IsByte value width) ha) in
    load_little_endian-number all (length before) width bytes (omega arith) h8
    ∙ ap (λ (xs : List ℕ). number (take width xs)) (drop-append before (stored ++ after))
    ∙ ap (λ (k : ℕ). number (take k (stored ++ after))) (sym l)
    ∙ ap number (take-append stored after)
    ∙ number-store width value hv
