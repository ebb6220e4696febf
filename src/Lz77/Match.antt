-- ===== src/Lz77/Match.antt =====
-- What `find_lz_match` answers is a match, and no candidate of the window has a longer one.
use byte_select.Prelude.{
  ℕ, zero, suc, ◌+◌, ◌-◌, ◌≤◌, ◌<◌, ◌≡◌, refl, sym, arith, List, length, get_or,
}
use byte_select.Prelude.{true, Bool-cases, inl, inr, ltb, ◌==◌, ◌&&◌, if◌then◌else◌}
use mathlib.Core.Path.{subst}
use native.Mathlib.Decide.{ℕ_discrete}
use byte_select.Lz77.{LzMatch, match_loop, candidate_loop, find_lz_match}

-- From the candidate and from the position on, `l` bytes of the block are the same.
abbrev pub Matches : List ℕ → ℕ → ℕ → ℕ → Type 0
Matches block candidate position l =
    (k : ℕ)
    → k < l
    → (position + k < length block)
      × (get_or block (candidate + k) 0 ≡ get_or block (position + k) 0)

match_loop-Matches :
    (block : List ℕ) (candidate position l left : ℕ)
    → Matches block candidate position l
    → Matches block candidate position (match_loop block candidate position l left)
      × (l ≤ match_loop block candidate position l left)
      × (match_loop block candidate position l left ≤ l + left)
unfolding match_loop
match_loop-Matches block c p l zero h = (h, omega arith, omega arith)
match_loop-Matches block c p l (suc left) h =
    elim (Bool-cases
      (ltb (p + l) (length block) && get_or block (c + l) 0 == get_or block (p + l) 0)) [
        | inr other ↦ rw other (h, omega arith, omega arith)
        | inl same ↦
            let (longer, low, high) = match_loop-Matches block c p (l + 1) left (λ k hk.
              elim (ℕ_discrete k l) [
                | yes e ↦ rw e (ground arith, ground arith)
                | no ne ↦ h k (omega arith)
              ]) in
            rw same (longer, omega (arith, low), omega (arith, high))
      ]

-- A match: its bytes stand `offset` before the position, in a
-- window that starts at `begin`.
pub record IsMatch (block : List ℕ) (begin position max_length : ℕ) (m : LzMatch) : Type 0 where
  pub back : begin + m.offset ≤ position
  pub some : 0 < m.length → 0 < m.offset
  pub short : m.length ≤ max_length
  pub bytes : Matches block (position - m.offset) position m.length

-- A bound on the candidates from `c` on, by one on the first and one on those behind it.
from_next :
    (f : ℕ → ℕ) (n c p : ℕ)
    → f c ≤ n
    → ((k : ℕ) → c + 1 ≤ k → k < p → f k ≤ n)
    → (k : ℕ) → c ≤ k
    → k < p
    → f k ≤ n
from_next f n c p first others k h₁ h₂ = elim (ℕ_discrete k c) [
  | yes e ↦ rw e first
  | no ne ↦ others k (omega arith) h₂
]

-- A match that is as long as those of the candidates from `candidate` on, and as a bound.
abbrev Best : List ℕ → ℕ → ℕ → ℕ → ℕ → ℕ → LzMatch → Type 0
Best block begin position max_length candidate bound m =
    IsMatch block begin position max_length m
    × (bound ≤ m.length)
    × ((k : ℕ) → candidate ≤ k → k < position → match_loop block k position 0 max_length ≤ m.length)

candidate_loop-Best :
    (block : List ℕ) (begin position max_length : ℕ) (best : LzMatch) (candidate left : ℕ)
    → begin ≤ candidate
    → candidate + left ≡ position
    → IsMatch block begin position max_length best
    → Best block begin position max_length candidate best.length
        (candidate_loop block position max_length best candidate left)
unfolding candidate_loop
candidate_loop-Best block begin p n best c zero hc hp v =
    (v, omega arith, λ k h₁ h₂. absurd (omega arith))
candidate_loop-Best block begin p n best c (suc left) hc hp v =
    let l = match_loop block c p 0 n in
    let (same, low, high) = match_loop-Matches block c p 0 n (λ k hk. absurd (omega arith)) in
    let place : p - (p - c) ≡ c = omega arith in
    let found : LzMatch = record { offset = p - c; length = l } in
    let good : IsMatch block begin p n found = record {
      back = omega arith;
      some = λ h. omega arith;
      short = omega (arith, high);
      bytes = rw place same;
    } in
    elim (Bool-cases (ltb best.length l)) [
      | inl better ↦
          let (w, more, all) =
            candidate_loop-Best block begin p n found (c + 1) left (omega arith) (omega arith)
              good in
          let step : candidate_loop block p n best c (suc left)
              ≡ candidate_loop block p n found (c + 1) left =
            rw (better, candidate_loop) refl in
          subst (Best block begin p n c best.length) (sym step)
            (w, ground arith, from_next (λ k. match_loop block k p 0 n) _ c p more all)
      | inr worse ↦
          let (w, more, all) =
            candidate_loop-Best block begin p n best (c + 1) left (omega arith) (omega arith) v in
          let step : candidate_loop block p n best c (suc left)
              ≡ candidate_loop block p n best (c + 1) left =
            rw (worse, candidate_loop) refl in
          subst (Best block begin p n c best.length) (sym step)
            (w, more, from_next (λ k. match_loop block k p 0 n) _ c p (ground arith) all)
    ]

match_loop_grows : (block : List ℕ) (c p l left : ℕ) → l ≤ match_loop block c p l left
unfolding match_loop
match_loop_grows block c p l zero = omega arith
match_loop_grows block c p l (suc left) =
    elim (Bool-cases
      (ltb (p + l) (length block) && get_or block (c + l) 0 == get_or block (p + l) 0)) [
        | inr other ↦ rw other (omega arith)
        | inl same ↦ rw same (omega (arith, match_loop_grows block c p (l + 1) left))
      ]

-- The loop counts all the bytes that are the same.
match_loop_longest :
    (block : List ℕ) (c p l left n : ℕ)
    → Matches block c p n
    → l ≤ n
    → n ≤ l + left
    → n ≤ match_loop block c p l left
unfolding match_loop
match_loop_longest block c p l zero n h low high = omega arith
match_loop_longest block c p l (suc left) n h low high = elim (ℕ_discrete n l) [
  | yes e ↦ rw e (match_loop_grows block c p l (suc left))
  | no ne ↦
      let (inside, equal) = h l (omega arith) in
      let same : (ltb (p + l) (length block) && get_or block (c + l) 0 == get_or block (p + l) 0)
          ≡ true =
        ground arith in
      rw same (match_loop_longest block c p (l + 1) left n h (omega arith) (omega arith))
]

-- The answer of `find_lz_match`: its offset reaches back into the window, and is not 0 for a match
-- of some bytes; so many bytes of the block as it tells, at most `max_length`, are the same from the
-- position and from `offset` bytes before it on; and whenever `l` bytes, at most `max_length`, are the
-- same from the position and from a place in the window on, the answer has `l` bytes at least.
pub find_lz_match_lem :
    (block : List ℕ) (position window max_length : ℕ)
    → IsMatch block
        (position - window)
        position
        max_length
        (find_lz_match block position window max_length)
      × ((k l : ℕ)
          → position - window ≤ k
          → k < position
          → l ≤ max_length
          → Matches block k position l
          → l ≤ (find_lz_match block position window max_length).length)
unfolding find_lz_match
find_lz_match_lem block position window max_length =
    let start : (if ltb window position then position - window else 0) ≡ position - window =
      ground arith in
    let first : IsMatch block (position - window) position max_length
        (record { offset = 0; length = 0 }) =
      record {
        back = omega arith;
        some = λ h. absurd (omega arith);
        short = omega arith;
        bytes = λ k hk. absurd (omega arith);
      } in
    let (v, more, all) =
      candidate_loop-Best block (position - window) position max_length
        (record { offset = 0; length = 0 }) (position - window) (position - (position - window))
        (omega arith) (omega arith) first in
    rw start (
      v,
      λ k l h₁ h₂ short same. omega (
        arith,
        all k h₁ h₂,
        match_loop_longest block k position 0 max_length l same (omega arith) (omega arith),
      ),
    )
