-- ===== src/Prelude/Pigeonhole.antt =====
-- Places in a range that are told apart by what stands there are not more than the things.
use byte_select.Prelude.{
  ℕ, zero, suc, ◌≤◌, ◌<◌, ◌≡◌, ◌≢◌, sym, ◌∙◌, ap, arith, if◌then◌else◌, ◌==◌, true, false,
  Bool-cases, inl, inr,
}

-- `g` puts the numbers below `n` below `m`, and `h` takes them back.
abbrev pub IsSent : ℕ → ℕ → (ℕ → ℕ) → (ℕ → ℕ) → Type 0
IsSent n m g h = (k : ℕ) → k < n → (g k < m) × (h (g k) ≡ k)

-- The last number gives its place to the one that was sent to the last place.
IsSent-swap :
    (n m : ℕ) (g h : ℕ → ℕ)
    → IsSent (suc n) (suc m) g h
    → IsSent n m (λ k. if g k == m then g n else g k) (λ j. if j == g n then h m else h j)
IsSent-swap n m g h s k hk =
    let (small, back) = s k (omega arith) in
    let (small', back') = s n (omega arith) in
    let apart : g k ≢ g n = λ e. (let same = sym back ∙ ap h e ∙ back' in omega arith) in
    elim (Bool-cases (g k == m)) [
      | inl last ↦
          let e : g k ≡ m = ground arith in
          let here : (g n == g n) ≡ true = ground arith in
          rw (last, here) (omega arith, ap h (sym e) ∙ back)
      | inr other ↦
          let there : (g k == g n) ≡ false = ground arith in rw (other, there) (ground arith, back)
    ]

pub pigeonhole : (n m : ℕ) (g h : ℕ → ℕ) → IsSent n m g h → n ≤ m
pigeonhole zero m g h s = omega arith
pigeonhole (suc n) zero g h s = absurd (omega (arith, (s n (omega arith)).0))
pigeonhole (suc n) (suc m) g h s = omega (
  arith,
  pigeonhole n m (λ k. if g k == m then g n else g k) (λ j. if j == g n then h m else h j)
      (IsSent-swap n m g h s),
)
