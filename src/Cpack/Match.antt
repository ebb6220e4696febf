-- ===== src/Cpack/Match.antt =====
-- The search for the best entry of the dictionary (`cpack_encode`), and what a word shares with it.
use byte_select.Prelude.{
  ℕ, zero, suc, ◌+◌, ◌-◌, ◌*◌, ◌/◌, ◌%◌, ◌^◌, ◌≤◌, ◌<◌, ◌≡◌, refl, ◌∙◌, ap, arith,
}
use byte_select.Prelude.{
  bit_or, bit_and, Bool-cases, ◌⊎◌, inl, inr, List, [], ◌∷◌, length, get_or, ltb, All, All-get_or,
  max, ◌==◌, ◌&&◌,
}
use byte_select.Prelude.Bits.{and_high, or_sum}
use byte_select.Cpack.{byte_of, matches_of, best_loop}

-- Either nothing beats what was known before, or the answer is an entry of the list with its matches.
pub best_loop-cases :
    (word m b i : ℕ) (d : List ℕ)
    → (best_loop word m b i d ≡ (m, b))
      ⊎ ((j : ℕ) × (j < length d)
          × (best_loop word m b i d ≡ (matches_of word (get_or d j 0), i + j)))
unfolding best_loop
best_loop-cases word m b i [] = inl refl
best_loop-cases word m b i (e ∷ d) = elim (Bool-cases (ltb m (matches_of word e))) [
  | inl better ↦ rw better (elim (best_loop-cases word (matches_of word e) i (i + 1) d) [
    | inl same ↦ inr (0, omega arith, same ∙ ap (λ (t : ℕ). (matches_of word e, t)) (omega arith))
    | inr (j, hj, h) ↦
        inr (
          suc j,
          omega arith,
          h ∙ ap (λ (t : ℕ). (matches_of word (get_or d j 0), t)) (omega arith),
        )
  ])
  | inr worse ↦ rw worse (elim (best_loop-cases word m b (i + 1) d) [
    | inl same ↦ inl same
    | inr (j, hj, h) ↦
        inr (
          suc j,
          omega arith,
          h ∙ ap (λ (t : ℕ). (matches_of word (get_or d j 0), t)) (omega arith),
        )
  ])
]

-- No entry matches in more bytes than the answer, and what was known before does not either.
pub best_loop_most :
    (word m b i : ℕ) (d : List ℕ)
    → (m ≤ (best_loop word m b i d).0)
      × ((j : ℕ) → j < length d → matches_of word (get_or d j 0) ≤ (best_loop word m b i d).0)
unfolding best_loop
best_loop_most word m b i [] = (omega arith, λ j h. absurd (omega arith))
best_loop_most word m b i (e ∷ d) = elim (Bool-cases (ltb m (matches_of word e))) [
  | inl better ↦
      let (above, rest) = best_loop_most word (matches_of word e) i (i + 1) d in
      rw (better, best_loop) (ground arith, first e d _ above rest)
  | inr worse ↦
      let (above, rest) = best_loop_most word m b (i + 1) d in
      rw (worse, best_loop) (above, first e d _ (ground arith) rest)
]
  where
    first :
        (e : ℕ) (d : List ℕ) (n : ℕ)
        → matches_of word e ≤ n
        → ((j : ℕ) → j < length d → matches_of word (get_or d j 0) ≤ n)
        → (j : ℕ) → j < length (e ∷ d)
        → matches_of word (get_or (e ∷ d) j 0) ≤ n
    first e d n he h zero hj = he
    first e d n he h (suc j) hj = h j (omega arith)

module _ (word entry : ℕ) (hw : word < 2 ^ 32) (he : entry < 2 ^ 32) where
  -- All four bytes match.
  pub matches_4 : matches_of word entry ≡ 4 → entry ≡ word
  unfolding matches_of
  matches_4 h = ground arith

  -- The three high bytes match, and the low byte of the word is put in.
  pub matches_3 :
      matches_of word entry ≡ 3
      → bit_or (bit_and entry (2 ^ 32 - 2 ^ 8)) (word / 2 ^ (8 * 0) % 2 ^ 8 % 2 ^ 8) % 2 ^ 32 ≡ word
  unfolding matches_of
  matches_3 h =
      let high : entry / 2 ^ 8 ≡ word / 2 ^ 8 = ground arith in
      rw
        (
          and_high 24 8 entry (omega arith),
          or_sum 8 (entry / 2 ^ 8) (word / 2 ^ (8 * 0) % 2 ^ 8 % 2 ^ 8) (omega arith),
        )
        (omega arith)

  -- The two high bytes match, and the low half of the word is put in.
  pub matches_2 :
      matches_of word entry ≡ 2
      → bit_or (bit_and entry (2 ^ 32 - 2 ^ 16)) (word % 2 ^ 16 % 2 ^ 16) % 2 ^ 32 ≡ word
  unfolding matches_of
  matches_2 h =
      let high : entry / 2 ^ 16 ≡ word / 2 ^ 16 = ground arith in
      rw
        (
          and_high 16 16 entry (omega arith),
          or_sum 16 (entry / 2 ^ 16) (word % 2 ^ 16 % 2 ^ 16) (omega arith),
        )
        (omega arith)

-- The `n` most significant bytes of two words of 32 bits are the same.
abbrev pub SharesHigh : ℕ → ℕ → ℕ → Type 0
SharesHigh n word entry = word / 2 ^ (8 * (4 - n)) ≡ entry / 2 ^ (8 * (4 - n))

module _ (word entry : ℕ) (hw : word < 2 ^ 32) (he : entry < 2 ^ 32) where
  -- The matches count the most significant bytes that are the same, if two are.
  matches_of-SharesHigh :
      0 < matches_of word entry
      → (1 < matches_of word entry)
        × (matches_of word entry ≤ 4)
        × SharesHigh (matches_of word entry) word entry
  unfolding matches_of
  matches_of-SharesHigh h =
      elim (Bool-cases (byte_of word 3 == byte_of entry 3 && byte_of word 2 == byte_of entry 2)) [
        | inr apart ↦ absurd (omega (arith, rw apart at h))
        | inl two ↦ elim (Bool-cases (byte_of word 1 == byte_of entry 1)) [
          | inr other ↦ rw (two, other) (omega arith, omega arith, ground arith)
          | inl three ↦ elim (Bool-cases (byte_of word 0 == byte_of entry 0)) [
            | inr other ↦ rw (two, three, other) (omega arith, omega arith, ground arith)
            | inl four ↦ rw (two, three, four) (omega arith, omega arith, ground arith)
          ]
        ]
      ]

  matches_of_most : (n : ℕ) → n ≤ 4 → SharesHigh n word entry → n ≤ max 1 (matches_of word entry)
  unfolding matches_of
  matches_of_most zero high same = omega arith
  matches_of_most (suc zero) high same = omega arith
  matches_of_most (suc (suc zero)) high same = ground arith
  matches_of_most (suc (suc (suc zero))) high same = ground arith
  matches_of_most (suc (suc (suc (suc zero)))) high same = ground arith
  matches_of_most (suc (suc (suc (suc (suc n))))) high same = absurd (omega arith)

abbrev pub AreWords : List ℕ → Type 0
AreWords d = All (λ e. e < 2 ^ 32) d

-- No entry of `d` has more than `n` of the most significant bytes of the word.
abbrev pub IsMost : ℕ → List ℕ → ℕ → Type 0
IsMost word d n = (j k : ℕ) → j < length d → k ≤ 4 → SharesHigh k word (get_or d j 0) → k ≤ n

-- The search of `cpack_encode`, which starts at one match and index 0, for words of 32 bits. It
-- answers (1, 0), and then no entry has the two most significant bytes of the word, or (n, i) with n
-- from 2 to 4, where the entry i has the n most significant bytes of the word, and then no entry has
-- more of them.
pub best_loop_best :
    (word : ℕ) (d : List ℕ)
    → word < 2 ^ 32
    → AreWords d
    → ((best_loop word 1 0 0 d ≡ (1, 0)) × IsMost word d 1)
      ⊎ ((n i : ℕ) × (i < length d)
          × (1 < n)
          × (n ≤ 4)
          × (best_loop word 1 0 0 d ≡ (n, i))
          × SharesHigh n word (get_or d i 0)
          × IsMost word d n)
best_loop_best word d hw hd =
    let (above, most) = best_loop_most word 1 0 0 d in
    let entry = λ (j : ℕ) (hj : j < length d). All-get_or (λ e. e < 2 ^ 32) d j 0 hd hj in
    let bound =
      λ (j k : ℕ) (hj : j < length d) (high : k ≤ 4) (same : SharesHigh k word (get_or d j 0)).
        matches_of_most word (get_or d j 0) hw (entry j hj) k high same in
    elim (best_loop-cases word 1 0 0 d) [
      | inl same ↦
          let few : (j : ℕ) → j < length d → matches_of word (get_or d j 0) ≤ 1 = rw same at most in
          inl (same, λ j k hj high shared. omega (arith, few j hj, bound j k hj high shared))
      | inr (i, hi, found) ↦
          let start : 0 + i ≡ i = omega arith in
          let found' = rw start at found in
          let some : 1 ≤ matches_of word (get_or d i 0) = rw found at above in
          let fewer : (j : ℕ)
              → j < length d
              → matches_of word (get_or d j 0) ≤ matches_of word (get_or d i 0) =
            rw found at most in
          let (two, four, shares) =
            matches_of-SharesHigh word (get_or d i 0) hw (entry i hi) some in
          inr (
            matches_of word (get_or d i 0),
            i,
            hi,
            two,
            four,
            found',
            shares,
            λ j k hj high shared. omega (arith, fewer j hj, bound j k hj high shared),
          )
    ]
