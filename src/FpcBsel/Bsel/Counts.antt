-- ===== src/FpcBsel/Bsel/Counts.antt =====
-- What `train_bsel` counts (fpc-bsel/src/bsel.cpp): for each pattern, the blocks whose simplest pattern it is.
use mathlib.Core.Path.{subst}
use native.Mathlib.Decide.{ℕ_discrete}
use mathlib.Core.List.{Memᴰ}
use mathlib.Core.List.Memᴰ
use byte_select.Prelude.{
  ℕ, suc, ◌+◌, ◌^◌, ◌<◌, ◌≡◌, ◌⊎◌, refl, sym, ◌∙◌, ap, arith, Bool-cases, inl, inr,
}
use byte_select.Prelude.{
  Bool, true, false, if◌then◌else◌, ◌==◌, List, [], ◌∷◌, length, All, Result, ok, err,
}
use byte_select.FpcBsel.Bsel.{Pattern, simplest_pattern}
use byte_select.FpcBsel.Bsel.Train.{Counted, bytes_lt, count_pattern, count_blocks}
use byte_select.FpcBsel.Bsel.Trained.{AllCounted, count_pattern-All, simplest_pattern-IsPatternOf}
use byte_select.FpcBsel.Bsel.Keys.{
  same_symbols, same_symbols_refl, same_symbols-path, bytes_lt-apart, bytes_lt-neither,
}
use byte_select.FpcBsel.Bsel.Keys.{
  pattern_path, patterns_of, IsLess, not-IsLess, AreRising, AllCounted-Memᴰ, AllCounted-IsLess,
}

unfoldable pub is_result : Pattern → Result Pattern → Bool
is_result p (ok q) = same_symbols p.symbols q.symbols
is_result p (err e) = false

-- The number of the blocks whose simplest pattern is `p`.
unfoldable pub times : Pattern → List (List ℕ) → ℕ
times p [] = 0
times p (b ∷ blocks) = (if is_result p (simplest_pattern b) then 1 else 0) + times p blocks

count_pattern-AreRising :
    (p : Pattern) (counts : List Counted) → AreRising counts → AreRising (count_pattern p counts)
unfolding count_pattern AreRising
count_pattern-AreRising p [] h = (tt, tt)
count_pattern-AreRising p (c ∷ counts) (hc, h) =
    elim (Bool-cases (bytes_lt c.pattern.symbols p.symbols)) [
      | inl behind ↦ rw behind (
        count_pattern-All (IsLess c.pattern) p counts behind hc,
        count_pattern-AreRising p counts h,
      )
      | inr not_behind ↦ rw not_behind (elim (Bool-cases (bytes_lt p.symbols c.pattern.symbols)) [
        | inl before ↦ rw before ((before, AllCounted-IsLess p c.pattern counts before hc), (hc, h))
        | inr neither ↦
            let e : c.pattern ≡ p =
              pattern_path c.pattern p
                (bytes_lt-neither c.pattern.symbols p.symbols not_behind neither) in
            rw neither (subst (λ (q : Pattern). AllCounted (IsLess q) counts) e hc, h)
      ])
    ]

-- The pattern that is counted is in the map behind that, and so are those that were.
count_pattern-Memᴰ :
    (p q : Pattern) (counts : List Counted)
    → (q ≡ p) ⊎ Memᴰ q (patterns_of counts)
    → Memᴰ q (patterns_of (count_pattern p counts))
unfolding count_pattern
count_pattern-Memᴰ p q [] (inl e) = Memᴰ.head e
count_pattern-Memᴰ p q [] (inr m) = absurd (Memᴰ.not-nil m)
count_pattern-Memᴰ p q (c ∷ counts) h = elim (Bool-cases (bytes_lt c.pattern.symbols p.symbols)) [
  | inl behind ↦ rw behind (elim h [
    | inl e ↦ Memᴰ.tail (count_pattern-Memᴰ p q counts (inl e))
    | inr m ↦ elim (Memᴰ.cases_cons m) [
      | inl e ↦ Memᴰ.head e
      | inr later ↦ Memᴰ.tail (count_pattern-Memᴰ p q counts (inr later))
    ]
  ])
  | inr not_behind ↦ rw not_behind (elim (Bool-cases (bytes_lt p.symbols c.pattern.symbols)) [
    | inl before ↦ rw before (elim h [ inl e ↦ Memᴰ.head e | inr m ↦ Memᴰ.tail m ])
    | inr neither ↦
        let same : c.pattern ≡ p =
          pattern_path c.pattern p
            (bytes_lt-neither c.pattern.symbols p.symbols not_behind neither) in
        rw neither (elim h [
          | inl e ↦ Memᴰ.head e
          | inr m ↦ elim (Memᴰ.cases_cons m) [
            | inl e ↦ Memᴰ.head (e ∙ same)
            | inr later ↦ Memᴰ.tail later
          ]
        ])
  ])
]

-- The counts, of each pattern, behind one more `p`.
unfoldable pub counted_more : Pattern → (Pattern → ℕ) → Pattern → ℕ
counted_more p f q = f q + (if same_symbols q.symbols p.symbols then 1 else 0)

-- The entry has the count of its pattern, which is not 0.
abbrev pub IsExact : (Pattern → ℕ) → Counted → Type 0
IsExact f c = (c.count ≡ f c.pattern) × (0 < c.count)

IsExact-other :
    (p : Pattern) (f : Pattern → ℕ) (c : Counted)
    → same_symbols c.pattern.symbols p.symbols ≡ false
    → IsExact f c
    → IsExact (counted_more p f) c
unfolding counted_more
IsExact-other p f c other (e, some) = (rw other (omega arith), some)

IsExact-others :
    (p : Pattern) (f : Pattern → ℕ) (counts : List Counted)
    → AllCounted (IsLess p) counts
    → All (IsExact f) counts
    → All (IsExact (counted_more p f)) counts
IsExact-others p f [] less h = tt
IsExact-others p f (c ∷ counts) (lc, less) (hc, h) = (
  IsExact-other p f c (bytes_lt-apart p.symbols c.pattern.symbols lc).1 hc,
  IsExact-others p f counts less h,
)

counted_more_self : (p : Pattern) (f : Pattern → ℕ) → counted_more p f p ≡ f p + 1
unfolding counted_more
counted_more_self p f = rw (same_symbols_refl p.symbols) refl

-- A new entry.
IsExact-new :
    (p : Pattern) (f : Pattern → ℕ)
    → f p ≡ 0
    → IsExact (counted_more p f) (record { count = 1; pattern = p })
IsExact-new p f none = (rw (counted_more_self p f, none) refl, omega arith)

count_pattern-IsExact :
    (p : Pattern) (f : Pattern → ℕ) (counts : List Counted)
    → f p + 1 < 2 ^ 64
    → AreRising counts
    → All (IsExact f) counts
    → (f p ≡ 0) ⊎ Memᴰ p (patterns_of counts)
    → All (IsExact (counted_more p f)) (count_pattern p counts)
unfolding count_pattern AreRising
count_pattern-IsExact p f [] small r h known = elim known [
  | inl none ↦ (IsExact-new p f none, tt)
  | inr m ↦ absurd (Memᴰ.not-nil m)
]
count_pattern-IsExact p f (c ∷ counts) small (rc, r) (hc, h) known =
    elim (Bool-cases (bytes_lt c.pattern.symbols p.symbols)) [
      | inl behind ↦
          let apart = bytes_lt-apart c.pattern.symbols p.symbols behind in
          rw behind (
            IsExact-other p f c apart.0 hc,
            count_pattern-IsExact p f counts small r h (elim known [
              | inl none ↦ inl none
              | inr m ↦ elim (Memᴰ.cases_cons m) [
                | inl e ↦ absurd (not-IsLess p (subst (λ (q : Pattern). IsLess q p) (sym e) behind))
                | inr later ↦ inr later
              ]
            ]),
          )
      | inr not_behind ↦ rw not_behind (elim (Bool-cases (bytes_lt p.symbols c.pattern.symbols)) [
        | inl before ↦
            let above : AllCounted (IsLess p) (c ∷ counts) =
              (before, AllCounted-IsLess p c.pattern counts before rc) in
            rw before (
              IsExact-new p f (elim known [
                | inl none ↦ none
                | inr m ↦ absurd (not-IsLess p (AllCounted-Memᴰ (IsLess p) (c ∷ counts) p above m))
              ]),
              IsExact-others p f (c ∷ counts) above (hc, h),
            )
        | inr neither ↦
            let e : c.pattern ≡ p =
              pattern_path c.pattern p
                (bytes_lt-neither c.pattern.symbols p.symbols not_behind neither) in
            let count : c.count ≡ f p = hc.0 ∙ ap f e in
            rw neither (
              (rw (counted_more_self p f) (omega arith), omega arith),
              IsExact-others p f counts (subst (λ (q : Pattern). AllCounted (IsLess q) counts) e rc)
                  h,
            )
      ])
    ]

-- The entries are those of the patterns with a count, with their counts.
pub record IsCounted (f : Pattern → ℕ) (counts : List Counted) : Type 0 where
  pub rising : AreRising counts
  pub exact : All (IsExact f) counts
  pub complete : (q : Pattern) → 0 < f q → Memᴰ q (patterns_of counts)

count_pattern-IsCounted :
    (p : Pattern) (f : Pattern → ℕ) (counts : List Counted)
    → f p + 1 < 2 ^ 64
    → IsCounted f counts
    → IsCounted (counted_more p f) (count_pattern p counts)
unfolding counted_more
count_pattern-IsCounted p f counts small h = record {
  rising = count_pattern-AreRising p counts h.rising;
  exact = count_pattern-IsExact p f counts small h.rising h.exact (elim (ℕ_discrete (f p) 0) [
    | yes none ↦ inl none
    | no some ↦ inr (h.complete p (omega arith))
  ]);
  complete = λ q more.
      count_pattern-Memᴰ p q counts (elim (Bool-cases (same_symbols q.symbols p.symbols)) [
        | inl same ↦ inl (pattern_path q p (same_symbols-path q.symbols p.symbols same))
        | inr other ↦ inr (h.complete q (ground (arith, rw other at more)))
      ]);
}

counted_more_small :
    (p q : Pattern) (f : Pattern → ℕ) (l : ℕ)
    → f q + suc l < 2 ^ 64
    → counted_more p f q + l < 2 ^ 64
unfolding counted_more
counted_more_small p q f l h = ground arith

counted_more-times :
    (p q : Pattern) (f : Pattern → ℕ) (b : List ℕ) (blocks : List (List ℕ))
    → simplest_pattern b ≡ ok p
    → counted_more p f q + times q blocks ≡ f q + times q (b ∷ blocks)
unfolding counted_more times is_result
counted_more-times p q f b blocks made = rw made (omega arith)

add_none : (n : ℕ) → n ≡ n + 0
add_none n = omega arith

-- What `count_blocks` counts on top of `f`.
pub count_blocks-IsCounted :
    (n : ℕ) (f : Pattern → ℕ) (counts : List Counted) (blocks : List (List ℕ))
    → 0 < n
    → All (λ (b : List ℕ). length b ≡ n) blocks
    → ((q : Pattern) → f q + length blocks < 2 ^ 64)
    → IsCounted f counts
    → (r : List Counted) × (count_blocks n counts blocks ≡ ok r)
      × IsCounted (λ q. f q + times q blocks) r
unfolding count_blocks times
count_blocks-IsCounted n f counts [] more sized small h =
    (counts, refl, subst (λ g. IsCounted g counts) (λ i q. add_none (f q) i) h)
count_blocks-IsCounted n f counts (b ∷ blocks) more (size, sized) small h =
    let same : (length b == n) ≡ true = ground arith in
    let (p, made, v) = simplest_pattern-IsPatternOf b (omega arith) in
    let (r, e, k) =
      count_blocks-IsCounted n (counted_more p f) (count_pattern p counts) blocks more sized
        (λ q. counted_more_small p q f (length blocks) (small q))
        (count_pattern-IsCounted p f counts (omega (arith, small p)) h) in
    (
      r,
      rw (same, made) e,
      subst (λ g. IsCounted g r) (λ i q. counted_more-times p q f b blocks made i) k,
    )
