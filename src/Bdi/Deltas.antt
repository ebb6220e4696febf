-- ===== src/Bdi/Deltas.antt =====
-- The deltas of a mode: `bdi_decode` adds back to the base what `bdi_encode` took away.
use byte_select.Prelude.{ℕ, zero, suc, ◌+◌, ◌-◌, ◌*◌, ◌%◌, ◌^◌, ◌≤◌, ◌<◌, ◌≡◌, refl, ◌∙◌, ap₂}
use byte_select.Prelude.{
  arith, List, [], ◌∷◌, ◌++◌, length, take, drop, All, take_add, drop_add, length-append,
  append_assoc,
}
use byte_select.Word.{load_little_endian, store_little_endian}
use byte_select.Word.Load.{IsByte, store-load}
use byte_select.Prelude.Slices.{All-append}
use byte_select.Word.Store.{length-store, store-IsByte, load-store}
use byte_select.Bdi.{Mode, values_loop, put_deltas, add_deltas}
use byte_select.Bdi.Range.{InRange}

pub length-put_deltas :
    (base delta_bytes : ℕ) (values : List ℕ)
    → length (put_deltas base delta_bytes values) ≡ length values * delta_bytes
unfolding put_deltas
length-put_deltas base delta_bytes [] = omega arith
length-put_deltas base delta_bytes (v ∷ values) =
    let delta = store_little_endian ((v + 2 ^ 64 - base) % 2 ^ 64) delta_bytes in
    let split : length (v ∷ values) * delta_bytes ≡ delta_bytes + length values * delta_bytes =
      omega arith in
    length-append delta (put_deltas base delta_bytes values)
    ∙ rw (length-store, length-put_deltas base delta_bytes values, split) refl

pub put_deltas-IsByte :
    (base delta_bytes : ℕ) (values : List ℕ) → All IsByte (put_deltas base delta_bytes values)
unfolding put_deltas
put_deltas-IsByte base delta_bytes [] = tt
put_deltas-IsByte base delta_bytes (v ∷ values) =
    All-append IsByte _ _ (store-IsByte ((v + 2 ^ 64 - base) % 2 ^ 64) delta_bytes)
      (put_deltas-IsByte base delta_bytes values)

-- The deltas of the values from `offset` on, which stand behind some bytes.
pub add_deltas-put_deltas :
    (block : List ℕ) (mode : Mode) (base : ℕ) (before : List ℕ) (offset left : ℕ)
    → All IsByte block
    → All IsByte before
    → mode.delta_bytes ≤ 8
    → mode.value_bytes ≤ 8
    → offset + left * mode.value_bytes ≤ length block
    → All
        (λ v. InRange base mode.delta_bytes v × (v < 2 ^ 64))
        (values_loop block mode.value_bytes offset left)
    → add_deltas
        (before
          ++ put_deltas base mode.delta_bytes (values_loop block mode.value_bytes offset left))
        base
        mode
        (length before)
        left
      ≡ take (left * mode.value_bytes) (drop offset block)
unfolding add_deltas put_deltas values_loop
add_deltas-put_deltas block mode base before offset zero hb hp hd hv room fits =
    let none : 0 * mode.value_bytes ≡ 0 = omega arith in rw none refl
add_deltas-put_deltas block mode base before offset (suc left) hb hp hd hv room
      (((low, high), big), fits) =
    let value = load_little_endian block offset mode.value_bytes in
    let delta = (value + 2 ^ 64 - base) % 2 ^ 64 in
    let small : delta ≡ value - base = omega arith in
    let stored = store_little_endian delta mode.delta_bytes in
    let rest = values_loop block mode.value_bytes (offset + mode.value_bytes) left in
    let others = put_deltas base mode.delta_bytes rest in
    let read : load_little_endian (before ++ (stored ++ others)) (length before) mode.delta_bytes
        ≡ delta =
      load-store before others delta mode.delta_bytes hp
        (put_deltas-IsByte base mode.delta_bytes rest) hd (rw small high) in
    let back : (base + delta) % 2 ^ 64 ≡ value = omega (arith, low, big, small) in
    let split : suc left * mode.value_bytes ≡ mode.value_bytes + left * mode.value_bytes =
      omega arith in
    let next =
      add_deltas-put_deltas block mode base (before ++ stored) (offset + mode.value_bytes) left hb
        (All-append IsByte before stored hp (store-IsByte delta mode.delta_bytes)) hd hv
        (omega arith) fits in
    let there : length (before ++ stored) ≡ length before + mode.delta_bytes =
      omega (arith, length-append before stored, length-store delta mode.delta_bytes) in
    rw (read, back, split, take_add, ← drop_add)
      (ap₂ ◌++◌ (store-load block offset mode.value_bytes hb (omega arith) hv)
        (rw (append_assoc before stored others, there) at next))
