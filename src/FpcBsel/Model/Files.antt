-- ===== src/FpcBsel/Model/Files.antt =====
-- `load_model` undoes `save_model` (fpc-bsel/src/model.cpp).
use byte_select.Prelude.{ℕ, ◌+◌, ◌*◌, ◌/◌, ◌%◌, ◌^◌, bit_or, ◌≤◌, ◌<◌, ◌≡◌, refl, ◌∙◌, ap, arith}
use byte_select.Prelude.{true, false, ◌||◌, ltb, leb, ◌==◌}
use byte_select.Prelude.{List, [], ◌∷◌, ◌++◌, length, take, drop, All, ok}
use byte_select.Prelude.{append_assoc, append-nil, length-append}
use byte_select.Prelude.Bits.{or_comm, or_sum, or_zero}
use byte_select.Prelude.Slices.{take-append, drop-append}
use byte_select.FpcBsel.Fpc.{store32}
use byte_select.FpcBsel.Bsel.{Pattern, BselModel, rank}
use byte_select.FpcBsel.Bsel.Fill.{All-lt-rank_of}
use byte_select.FpcBsel.Codec.{Model}
use byte_select.FpcBsel.Model.{
  write_u32, read_bytes, read_u32, write_patterns, write_set, check_symbols, read_patterns,
}
use byte_select.FpcBsel.Model.{read_set, save_model, load_model, same_bytes, magic}

-- Bytes put together from the lowest on.
next_byte :
    (k low b : ℕ)
    → low < 2 ^ k
    → b * 2 ^ k < 2 ^ 32
    → bit_or low (b * 2 ^ k % 2 ^ 32) ≡ b * 2 ^ k + low
next_byte k low b h small =
    let whole : b * 2 ^ k % 2 ^ 32 ≡ b * 2 ^ k = omega arith in
    rw (whole, or_comm low (b * 2 ^ k)) (or_sum k b low h)

pub read_u32-write_u32 :
    (value : ℕ) (rest : List ℕ)
    → value < 2 ^ 32
    → read_u32 (write_u32 value ++ rest) ≡ ok (value, rest)
unfolding read_u32 read_bytes store32
read_u32-write_u32 value rest h =
    let b₀ = value / 2 ^ 0 % 2 ^ 8 in
    let b₁ = value / 2 ^ 8 % 2 ^ 8 in
    let b₂ = value / 2 ^ 16 % 2 ^ 8 in
    let b₃ = value / 2 ^ 24 % 2 ^ 8 in
    let first : bit_or 0 (b₀ * 2 ^ 0 % 2 ^ 32) ≡ b₀ =
      or_comm 0 _ ∙ or_zero (b₀ * 2 ^ 0 % 2 ^ 32) ∙ omega arith in
    let second = next_byte 8 b₀ b₁ (omega arith) (omega arith) in
    let third = next_byte 16 (b₁ * 2 ^ 8 + b₀) b₂ (omega arith) (omega arith) in
    let fourth = next_byte 24 (b₂ * 2 ^ 16 + (b₁ * 2 ^ 8 + b₀)) b₃ (omega arith) (omega arith) in
    rw (first, second, third, fourth) (ap (λ (v : ℕ). ok (v, rest)) (omega arith))

check_symbols-below :
    (bound : ℕ) (xs : List ℕ) → All (λ x. x < bound) xs → check_symbols bound xs ≡ ok tt
unfolding check_symbols
check_symbols-below bound [] h = refl
check_symbols-below bound (x ∷ xs) (hx, h) =
    let fine : leb bound x ≡ false = ground arith in rw fine (check_symbols-below bound xs h)

abbrev pub Sized : ℕ → List Pattern → Type 0
Sized n ps = All (λ (p : Pattern). length p.symbols ≡ n) ps

read_patterns-write_patterns :
    (n : ℕ) (ps : List Pattern)
    → Sized n ps
    → (bytes : List ℕ) × (write_patterns n ps ≡ ok bytes)
      × ((rest : List ℕ) → read_patterns n (bytes ++ rest) (length ps) ≡ ok (ps, rest))
unfolding write_patterns read_patterns rank
read_patterns-write_patterns n [] h = ([], refl, λ rest. refl)
read_patterns-write_patterns n (p ∷ ps) (size, h) =
    let (bytes, written, back) = read_patterns-write_patterns n ps h in
    let same : (length p.symbols == n) ≡ true = ground arith in
    (
      p.symbols ++ bytes,
      rw (same, written) refl,
      λ rest.
          let room : ltb (length (p.symbols ++ (bytes ++ rest))) n ≡ false =
            ground (arith, length-append p.symbols (bytes ++ rest)) in
          let taken : take n (p.symbols ++ (bytes ++ rest)) ≡ p.symbols =
            rw size at (take-append p.symbols (bytes ++ rest)) in
          let left : drop n (p.symbols ++ (bytes ++ rest)) ≡ bytes ++ rest =
            rw size at (drop-append p.symbols (bytes ++ rest)) in
          rw (append_assoc p.symbols bytes rest, room, taken, left, back rest)
            (rw (check_symbols-below (rank p) p.symbols (All-lt-rank_of p.symbols)) refl),
    )

-- A set that `read_set` takes.
pub record IsStored (n : ℕ) (set : BselModel) : Type 0 where
  pub size : set.block_size ≡ n
  pub few : length set.patterns ≤ 65535
  pub sized : Sized n set.patterns

read_set-write_set :
    (n : ℕ) (set : BselModel)
    → 0 < n
    → n ≤ 64
    → IsStored n set
    → (bytes : List ℕ) × (write_set set ≡ ok bytes)
      × ((rest : List ℕ) → read_set (bytes ++ rest) ≡ ok (set, rest))
unfolding write_set read_set
read_set-write_set n set low high s =
    let size = s.size in
    let few = s.few in
    let (patterns, written, back) =
      read_patterns-write_patterns set.block_size set.patterns (rw (← s.size) at s.sized) in
    let head = set.block_size % 2 ^ 32 in
    let count = length set.patterns % 2 ^ 32 in
    let same : head ≡ set.block_size = omega arith in
    let all : count ≡ length set.patterns = omega arith in
    let valid : (set.block_size == 0 || (ltb 64 set.block_size || ltb 65535 (length set.patterns)))
        ≡ false =
      ground arith in
    (
      write_u32 head ++ (write_u32 count ++ patterns),
      rw written refl,
      λ rest.
          rw
            (
              append_assoc (write_u32 head) (write_u32 count ++ patterns) rest,
              append_assoc (write_u32 count) patterns rest,
              read_u32-write_u32 head (write_u32 count ++ (patterns ++ rest)) (omega arith),
              read_u32-write_u32 count (patterns ++ rest) (omega arith),
              same,
              all,
              valid,
              back rest,
            )
            refl,
    )

-- For a model with the sizes 16 and 64, and at most 65535 patterns of its size in each set,
-- `save_model` makes the bytes of a file from which `load_model` returns the model.
pub load_model-save_model :
    (model : Model)
    → IsStored 16 model.prefix
    → IsStored 64 model.residual
    → (file : List ℕ) × (save_model model ≡ ok file) × (load_model file ≡ ok model)
unfolding save_model load_model same_bytes
load_model-save_model model hp hr =
    let (prefix, written, back) =
      read_set-write_set 16 model.prefix (omega arith) (omega arith) hp in
    let (residual, written', back') =
      read_set-write_set 64 model.residual (omega arith) (omega arith) hr in
    let last : read_set residual ≡ ok (model.residual, []) = rw append-nil at (back' []) in
    (
      magic ++ (write_u32 1 ++ (prefix ++ residual)),
      rw (written, written') refl,
      rw
          (
            read_u32-write_u32 1 (prefix ++ residual) (omega arith),
            back residual,
            last,
            hp.size,
            hr.size,
          )
          refl,
    )
