-- ===== src/Prelude/Sorting.antt =====
-- `std::sort` of numbers, and `erase` of what `std::unique` leaves over.
use byte_select.Prelude.{ℕ, ◌≤◌, ◌<◌, ◌≡◌, arith, if◌then◌else◌, ◌==◌, leb, Bool-cases, inl, inr}
use byte_select.Prelude.{List, [], ◌∷◌, All}

unfoldable pub insert_number : ℕ → List ℕ → List ℕ
insert_number x [] = x ∷ []
insert_number x (y ∷ ys) = if leb x y then x ∷ y ∷ ys else y ∷ insert_number x ys

unfoldable pub sort_numbers : List ℕ → List ℕ
sort_numbers [] = []
sort_numbers (x ∷ xs) = insert_number x (sort_numbers xs)

-- The first of equal neighbours is kept; `last` is the number kept before.
unfoldable pub unique_behind : ℕ → List ℕ → List ℕ
unique_behind last [] = []
unique_behind last (x ∷ xs) = if last == x then unique_behind last xs else x ∷ unique_behind x xs

unfoldable pub unique_numbers : List ℕ → List ℕ
unique_numbers [] = []
unique_numbers (x ∷ xs) = x ∷ unique_behind x xs

abbrev pub sorted_unique : List ℕ → List ℕ
sorted_unique xs = unique_numbers (sort_numbers xs)

unfoldable pub IsSorted : List ℕ → Type 0
IsSorted [] = Unit {0}
IsSorted (x ∷ xs) = All (λ y. x ≤ y) xs × IsSorted xs

unfoldable pub IsAscending : List ℕ → Type 0
IsAscending [] = Unit {0}
IsAscending (x ∷ xs) = All (λ y. x < y) xs × IsAscending xs

All-weaken : (P Q : ℕ → Type 0) (xs : List ℕ) → ((x : ℕ) → P x → Q x) → All P xs → All Q xs
All-weaken P Q [] f h = tt
All-weaken P Q (x ∷ xs) f (hx, h) = (f x hx, All-weaken P Q xs f h)

module _ (P : ℕ → Type 0) where
  insert_number-All : (x : ℕ) (xs : List ℕ) → P x → All P xs → All P (insert_number x xs)
  unfolding insert_number
  insert_number-All x [] hx h = (hx, tt)
  insert_number-All x (y ∷ ys) hx (hy, h) = elim (Bool-cases (leb x y)) [
    | inl before ↦ rw before (hx, (hy, h))
    | inr behind ↦ rw behind (hy, insert_number-All x ys hx h)
  ]

  inserted-All : (x : ℕ) (xs : List ℕ) → All P (insert_number x xs) → P x × All P xs
  unfolding insert_number
  inserted-All x [] h = h
  inserted-All x (y ∷ ys) h = elim (Bool-cases (leb x y)) [
    | inl before ↦ rw before at h
    | inr behind ↦
        let (hy, rest) = rw behind at h in let (hx, hs) = inserted-All x ys rest in (hx, (hy, hs))
  ]

  sorted-All : (xs : List ℕ) → All P (sort_numbers xs) → All P xs
  unfolding sort_numbers
  sorted-All [] h = tt
  sorted-All (x ∷ xs) h =
      let (hx, hs) = inserted-All x (sort_numbers xs) h in (hx, sorted-All xs hs)

  unique_behind-All : (last : ℕ) (xs : List ℕ) → P last → All P (unique_behind last xs) → All P xs
  unfolding unique_behind
  unique_behind-All last [] hl h = tt
  unique_behind-All last (x ∷ xs) hl h = elim (Bool-cases (last == x)) [
    | inl same ↦
        let e : last ≡ x = ground arith in
        (rw (← e) hl, unique_behind-All last xs hl (rw same at h))
    | inr other ↦ let (hx, rest) = rw other at h in (hx, unique_behind-All x xs hx rest)
  ]

  -- What holds of all the numbers that are left holds of all that were given.
  pub sorted_unique-All : (xs : List ℕ) → All P (sorted_unique xs) → All P xs
  unfolding unique_numbers
  sorted_unique-All xs h = sorted-All xs (of_unique (sort_numbers xs) h)
    where
      of_unique : (ys : List ℕ) → All P (unique_numbers ys) → All P ys
      of_unique [] h = tt
      of_unique (y ∷ ys) (hy, h) = (hy, unique_behind-All y ys hy h)

insert_number-IsSorted : (x : ℕ) (xs : List ℕ) → IsSorted xs → IsSorted (insert_number x xs)
unfolding insert_number IsSorted
insert_number-IsSorted x [] h = (tt, tt)
insert_number-IsSorted x (y ∷ ys) (hy, h) = elim (Bool-cases (leb x y)) [
  | inl before ↦
      let le : x ≤ y = ground arith in
      rw before ((le, All-weaken (λ z. y ≤ z) (λ z. x ≤ z) ys (λ z k. omega arith) hy), (hy, h))
  | inr behind ↦
      let le : y ≤ x = ground arith in
      rw behind (insert_number-All (λ z. y ≤ z) x ys le hy, insert_number-IsSorted x ys h)
]

sort_numbers-IsSorted : (xs : List ℕ) → IsSorted (sort_numbers xs)
unfolding sort_numbers IsSorted
sort_numbers-IsSorted [] = tt
sort_numbers-IsSorted (x ∷ xs) =
    insert_number-IsSorted x (sort_numbers xs) (sort_numbers-IsSorted xs)

unique_behind-IsAscending :
    (last : ℕ) (xs : List ℕ)
    → All (λ y. last ≤ y) xs
    → IsSorted xs
    → All (λ y. last < y) (unique_behind last xs) × IsAscending (unique_behind last xs)
unfolding unique_behind IsSorted IsAscending
unique_behind-IsAscending last [] hl h = (tt, tt)
unique_behind-IsAscending last (x ∷ xs) (lx, hl) (hx, h) = elim (Bool-cases (last == x)) [
  | inl same ↦ rw same (unique_behind-IsAscending last xs hl h)
  | inr other ↦
      let more : last < x = ground arith in
      let (above, rest) = unique_behind-IsAscending x xs hx h in
      rw other (
        (
          more,
          All-weaken (λ z. x < z) (λ z. last < z) (unique_behind x xs) (λ z k. omega arith) above,
        ),
        (above, rest),
      )
]

pub sorted_unique-IsAscending : (xs : List ℕ) → IsAscending (sorted_unique xs)
unfolding IsAscending unique_numbers IsSorted
sorted_unique-IsAscending xs = of_sorted (sort_numbers xs) (sort_numbers-IsSorted xs)
  where
    of_sorted : (ys : List ℕ) → IsSorted ys → IsAscending (unique_numbers ys)
    of_sorted [] h = tt
    of_sorted (y ∷ ys) (hy, h) = unique_behind-IsAscending y ys hy h
