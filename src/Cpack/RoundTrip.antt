-- ===== src/Cpack/RoundTrip.antt =====
-- `unpack_word` undoes `pack_word`, whichever of the six codes it chose.
use byte_select.Prelude.{ℕ, ◌+◌, ◌-◌, ◌/◌, ◌%◌, ◌^◌, ◌≤◌, ◌<◌, ◌≡◌, refl, sym, ap, arith}
use byte_select.Prelude.{
  bit_or, bit_and, Bool, true, false, Bool-cases, inl, inr, List, length, get_or, All, All-get_or,
}
use byte_select.Prelude.{◌==◌, ◌&&◌, if◌then◌else◌, ok, ◌>>=◌}
use byte_select.Stream.{BitWriter, put, get}
use byte_select.Stream.Split.{put-add}
use byte_select.Stream.Emits.{
  Emits, Emits-put, Emits-bind, Emits-along, Emits-map, Emits-return, Decoder,
}
use byte_select.Cpack.{
  byte_of, matches_of, best_loop, put_match, push, pack_word, entry_at, unpack_partial,
}
use byte_select.Cpack.{unpack_subtype, unpack_first, unpack_word, push_decoded}
use byte_select.Cpack.Match.{best_loop-cases, matches_2, matches_3, matches_4}

entry_at_lem : (d : List ℕ) (j : ℕ) → j < length d → entry_at d j ≡ ok (get_or d j 0)
unfolding entry_at
entry_at_lem d j h = ground arith

-- A code that the first two bits tell.
module _ (w w' : BitWriter) (d : List ℕ) (a : ℕ × Bool) where
  short :
      (first : ℕ)
      → first % 2 ^ 2 ≡ first
      → Emits (put w first 2) w' (unpack_first d first) a
      → Emits w w' (unpack_word d) a
  unfolding unpack_word
  short first small e =
      Emits-bind first (unpack_first d) (Emits-along small (Emits-put w first 2)) e

  -- A code of four bits, `11` the first two.
  long :
      (code : ℕ)
      → code % 2 ^ 2 ≡ 3
      → code < 16
      → Emits (put w code 4) w' (unpack_subtype d (code / 2 ^ 2)) a
      → Emits w w' (unpack_word d) a
  unfolding unpack_word unpack_first
  long code three small e = Emits-bind 3 (unpack_first d) (Emits-along three (Emits-put w code 2)) (
      Emits-bind (code / 2 ^ 2) (unpack_subtype d)
        (Emits-along (omega arith) (Emits-put (put w code 2) (code / 2 ^ 2) 2))
        (rw (put-add w code 2 2) at e))

  -- The index of an entry, and what stands behind it.
  indexed :
      (j : ℕ) (next : ℕ → Decoder (ℕ × Bool))
      → j < length d
      → length d ≤ 16
      → Emits (put w j 4) w' (next (get_or d j 0)) a
      → Emits w w'
          (λ bytes p.
            get bytes p 4 >>= λ (index, q). entry_at d index >>= λ word. next word bytes q)
          a
  indexed j next hj hd e =
      Emits-bind j (λ index bytes q. entry_at d index >>= λ word. next word bytes q)
        (Emits-along (omega arith) (Emits-put w j 4)) (rw (entry_at_lem d j hj) e)

module _ (w : BitWriter) (d : List ℕ) (v : ℕ) (hv : v < 2 ^ 32) where
  zero_word : v ≡ 0 → Emits w (put w 0 2) (unpack_word d) (v, false)
  unfolding unpack_first
  zero_word h =
      short w (put w 0 2) d (v, false) 0 refl
        (Emits-along (ap (λ (t : ℕ). (t, false)) (sym h)) (Emits-return (put w 0 2) (0, false)))

  low_byte :
      byte_of v 1 ≡ 0
      → byte_of v 2 ≡ 0
      → byte_of v 3 ≡ 0
      → Emits w (put (put w 11 4) (byte_of v 0) 8) (unpack_word d) (v, false)
  unfolding unpack_subtype
  low_byte h₁ h₂ h₃ =
      let same : byte_of v 0 % 2 ^ 8 % 2 ^ 32 ≡ v = omega arith in
      long w _ d (v, false) 11 refl (omega arith)
        (Emits-along (ap (λ (t : ℕ). (t, false)) same)
          (Emits-map (λ x. (x % 2 ^ 32, false)) _ (Emits-put (put w 11 4) (byte_of v 0) 8)))

  whole : Emits w (put (put w 2 2) v 32) (unpack_word d) (v, true)
  unfolding unpack_first
  whole =
      let same : v % 2 ^ 32 % 2 ^ 32 ≡ v = omega arith in
      short w _ d (v, true) 2 refl
        (Emits-along (ap (λ (t : ℕ). (t, true)) same)
          (Emits-map (λ x. (x % 2 ^ 32, true)) _ (Emits-put (put w 2 2) v 32)))

  module _ (j : ℕ) (hj : j < length d) (hd : length d ≤ 16) (he : get_or d j 0 < 2 ^ 32) where
    four : matches_of v (get_or d j 0) ≡ 4 → Emits w (put (put w 1 2) j 4) (unpack_word d) (v, true)
    unfolding unpack_first
    four h =
        short w _ d (v, true) 1 refl
          (indexed (put w 1 2) _ d (v, true) j (λ word bytes q. ok ((word, true), q)) hj hd
            (Emits-along (ap (λ (t : ℕ). (t, true)) (matches_4 v (get_or d j 0) hv he h))
              (Emits-return (put (put w 1 2) j 4) (get_or d j 0, true))))

    three :
        matches_of v (get_or d j 0) ≡ 3
        → Emits w (put (put (put w 7 4) j 4) (byte_of v 0) 8) (unpack_word d) (v, true)
    unfolding unpack_subtype unpack_partial
    three h =
        long w _ d (v, true) 7 refl (omega arith)
          (indexed (put w 7 4) _ d (v, true) j (unpack_partial 1) hj hd
            (Emits-along (ap (λ (t : ℕ). (t, true)) (matches_3 v (get_or d j 0) hv he h)) (
              Emits-map (λ x. (bit_or (bit_and (get_or d j 0) (2 ^ 32 - 2 ^ 8)) x % 2 ^ 32, true)) _
                (Emits-put (put (put w 7 4) j 4) (byte_of v 0) 8))))

    two :
        matches_of v (get_or d j 0) ≡ 2
        → Emits w (put (put (put w 3 4) j 4) (v % 2 ^ 16) 16) (unpack_word d) (v, true)
    unfolding unpack_subtype unpack_partial
    two h =
        long w _ d (v, true) 3 refl (omega arith)
          (indexed (put w 3 4) _ d (v, true) j (unpack_partial 0) hj hd
            (Emits-along (ap (λ (t : ℕ). (t, true)) (matches_2 v (get_or d j 0) hv he h)) (
              Emits-map (λ x. (bit_or (bit_and (get_or d j 0) (2 ^ 32 - 2 ^ 16)) x % 2 ^ 32, true))
                _ (Emits-put (put (put w 3 4) j 4) (v % 2 ^ 16) 16))))

    put_match-Emits :
        (n : ℕ)
        → matches_of v (get_or d j 0) ≡ n
        → Emits w (put_match w v n j) (unpack_word d) (v, true)
    unfolding put_match
    put_match-Emits n h = elim (Bool-cases (n == 4)) [
      | inl e ↦ rw e (four (ground arith))
      | inr n₄ ↦ rw n₄ (elim (Bool-cases (n == 3)) [
        | inl e ↦ rw e (three (ground arith))
        | inr n₃ ↦ rw n₃ (elim (Bool-cases (n == 2)) [
          | inl e ↦ rw e (two (ground arith))
          | inr n₂ ↦ rw n₂ whole
        ])
      ])
    ]

  -- The dictionaries of the two sides stay the same, below 17 entries.
  push-push_decoded : length d ≤ 16 → push d v ≡ push_decoded d v
  unfolding push push_decoded
  push-push_decoded hd = ground arith

  best_match :
      length d ≤ 16
      → All (λ e. e < 2 ^ 32) d
      → Emits w
          (put_match w v (best_loop v 1 0 0 d).0 (best_loop v 1 0 0 d).1)
          (unpack_word d)
          (v, true)
  unfolding put_match
  best_match hd hs = elim (best_loop-cases v 1 0 0 d) [
    | inl none ↦ rw none whole
    | inr (j, hj, found) ↦
        let start : 0 + j ≡ j = omega arith in
        rw (found, start)
          (put_match-Emits j hj hd (All-get_or (λ e. e < 2 ^ 32) d j 0 hs hj)
            (matches_of v (get_or d j 0)) refl)
  ]

  -- The word comes back, with the answer whether it enters the dictionary, and it enters that of
  -- the encoder in the same case.
  pub pack_word-Emits :
      length d ≤ 16
      → All (λ e. e < 2 ^ 32) d
      → (update : Bool) × Emits w (pack_word w d v).0 (unpack_word d) (v, update)
        × ((pack_word w d v).1 ≡ (if update then push_decoded d v else d))
  unfolding pack_word
  pack_word-Emits hd hs = elim (Bool-cases (v == 0)) [
    | inl e ↦ rw e (false, zero_word (ground arith), refl)
    | inr n₀ ↦
        rw n₀ (elim (Bool-cases (byte_of v 1 == 0 && (byte_of v 2 == 0 && byte_of v 3 == 0))) [
          | inl e ↦ rw e (false, low_byte (ground arith) (ground arith) (ground arith), refl)
          | inr n₁ ↦ rw n₁ (true, best_match hd hs, push-push_decoded hd)
        ])
  ]
