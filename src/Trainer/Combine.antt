-- ===== src/Trainer/Combine.antt =====
-- The search for a pair in `combine_greedily` (src/trainer.cpp): two patterns whose upper bound fits.
use byte_select.Prelude.{
  ℕ, ◌+◌, ◌^◌, ◌≤◌, ◌<◌, ◌≡◌, ◌⊎◌, refl, sym, ◌∙◌, ap, arith, Bool-cases, inl, inr,
}
use byte_select.Prelude.{
  true, ltb, List, [], ◌∷◌, length, All, Option, Option-cases, none, some, ok,
}
use byte_select.Pattern.{Pattern, less_equal, least_upper_bound, rank, IsSymbol}
use byte_select.Pattern.Order.{less_equal_iff, less_equal_order}
use byte_select.Pattern.Join.{least_upper_bound_lem}
use byte_select.Pattern.Rank.{IsCanonical-IsSymbol}
use byte_select.Prelude.{length-map}
use byte_select.Trainer.{find_partner, find_pair}
use byte_select.Trainer.Order.{HasSome}

-- A pattern of `n` symbols of 16 bits, whose dictionary fits `d` bytes.
pub record IsCandidate (n d : ℕ) (p : Pattern) : Type 0 where
  pub size : length p.symbols ≡ n
  pub symbols : All IsSymbol p.symbols
  pub fits : rank p ≤ d

abbrev pub IsBelow : Pattern → Pattern → Type 0
IsBelow o p = less_equal o p ≡ ok true

pub IsBelow-trans : (o p q : Pattern) → IsBelow o p → IsBelow p q → IsBelow o q
IsBelow-trans o p q = (less_equal_order o p q).1

-- The least upper bound of the two patterns does not fit the dictionary.
abbrev pub IsApart : ℕ → Pattern → Pattern → Type 0
IsApart d p q = (u : Pattern) → least_upper_bound p q ≡ ok u → d < rank u

-- No pattern of the list has one behind it with which an upper bound fits the dictionary.
unfoldable pub AreApart : ℕ → List Pattern → Type 0
AreApart d [] = Unit {0}
AreApart d (p ∷ patterns) = All (IsApart d p) patterns × AreApart d patterns

-- An upper bound `u` that stands for `k` patterns of `patterns` that are not in `others`.
pub record IsMerge (n d k : ℕ) (patterns : List Pattern) (u : Pattern) (others : List Pattern)
    : Type 0 where
  pub upper : IsCandidate n d u
  pub rest : All (IsCandidate n d) others
  pub fewer : length others + k ≡ length patterns
  pub covers :
      (o : Pattern) → HasSome (IsBelow o) patterns → IsBelow o u ⊎ HasSome (IsBelow o) others

ok_same : (u v : Pattern) → ok u ≡ ok v → u ≡ v
ok_same u v h = cc

module _ (n d : ℕ) (small : n < 2 ^ 16) where
  joined :
      (p q : Pattern)
      → IsCandidate n d p
      → IsCandidate n d q
      → (u : Pattern) × (least_upper_bound p q ≡ ok u)
        × (rank u ≤ d → IsCandidate n d u)
        × IsBelow p u
        × IsBelow q u
  joined p q hp hq =
      let (u, made, canonical, below, below', least) =
        least_upper_bound_lem p q hp.symbols hq.symbols (hp.size ∙ sym hq.size)
          (omega (arith, hp.size)) in
      let (f, e) = (less_equal_iff p u).0.0 below in
      let size : length u.symbols ≡ n = sym (length-map f u.symbols) ∙ ap length e ∙ hp.size in
      (
        u,
        made,
        λ fits. record {
          size = size;
          symbols = IsCanonical-IsSymbol u (omega arith) canonical;
          fits = fits;
        },
        below,
        below',
      )

  -- The partner of a pattern, if one is found.
  IsPartner : Pattern → List Pattern → Option (Pattern × List Pattern) → Type 0
  IsPartner p patterns none = All (IsApart d p) patterns
  IsPartner p patterns (some (u, others)) = IsMerge n d 1 patterns u others × IsBelow p u

  find_partner-IsPartner :
      (p : Pattern) (patterns : List Pattern)
      → IsCandidate n d p
      → All (IsCandidate n d) patterns
      → (r : Option (Pattern × List Pattern)) × (find_partner p d patterns ≡ ok r)
        × IsPartner p patterns r
  unfolding find_partner IsPartner HasSome
  find_partner-IsPartner p [] hp h = (none, refl, tt)
  find_partner-IsPartner p (q ∷ patterns) hp (hq, h) =
      let (u, made, candidate, below, below') = joined p q hp hq in
      elim (Bool-cases (ltb d (rank u))) [
        | inr fits ↦ (
          some (u, patterns),
          rw (made, fits) refl,
          (
            record {
              upper = candidate (ground arith);
              rest = h;
              fewer = omega arith;
              covers = λ o c. elim c [
                | inl here ↦ inl (IsBelow-trans o q u here below')
                | inr there ↦ inr there
              ];
            },
            below,
          ),
        )
        | inl large ↦
            let (r, found, partner) = find_partner-IsPartner p patterns hp h in
            elim (Option-cases r) [
              | inl nothing ↦
                  let others : All (IsApart d p) patterns = rw nothing at partner in
                  (
                    none,
                    rw (made, large, found, nothing) refl,
                    (λ v made'. rw (← ok_same u v (sym made ∙ made')) (ground arith), others),
                  )
              | inr ((v, others), hit) ↦
                  let (merge, low) : IsMerge n d 1 patterns v others × IsBelow p v =
                    rw hit at partner in
                  (
                    some (v, q ∷ others),
                    rw (made, large, found, hit) refl,
                    (
                      record {
                        upper = merge.upper;
                        rest = (hq, merge.rest);
                        fewer = omega (arith, merge.fewer);
                        covers = λ o c. elim c [
                          | inl here ↦ inr (inl here)
                          | inr there ↦ elim (merge.covers o there) [
                            | inl up ↦ inl up
                            | inr rest ↦ inr (inr rest)
                          ]
                        ];
                      },
                      low,
                    ),
                  )
            ]
      ]

  unfoldable pub IsPair : List Pattern → Option (Pattern × List Pattern) → Type 0
  IsPair patterns none = AreApart d patterns
  IsPair patterns (some (u, others)) = IsMerge n d 2 patterns u others

  pub find_pair-IsPair :
      (patterns : List Pattern)
      → All (IsCandidate n d) patterns
      → (r : Option (Pattern × List Pattern)) × (find_pair d patterns ≡ ok r) × IsPair patterns r
  unfolding find_pair IsPartner IsPair AreApart HasSome
  find_pair-IsPair [] h = (none, refl, tt)
  find_pair-IsPair (p ∷ patterns) (hp, h) =
      let (r, found, partner) = find_partner-IsPartner p patterns hp h in
      elim (Option-cases r) [
        | inr ((u, others), hit) ↦
            let (merge, low) : IsMerge n d 1 patterns u others × IsBelow p u = rw hit at partner in
            (
              some (u, others),
              rw (found, hit) refl,
              record {
                upper = merge.upper;
                rest = merge.rest;
                fewer = omega (arith, merge.fewer);
                covers = λ o c. elim c [
                  | inl here ↦ inl (IsBelow-trans o p u here low)
                  | inr there ↦ merge.covers o there
                ];
              },
            )
        | inl nothing ↦
            let (r', later, pair) = find_pair-IsPair patterns h in
            elim (Option-cases r') [
              | inl none_later ↦
                  let first : All (IsApart d p) patterns = rw nothing at partner in
                  let behind : AreApart d patterns = rw none_later at pair in
                  (none, rw (found, nothing, later, none_later) refl, (first, behind))
              | inr ((u, others), hit) ↦
                  let merge : IsMerge n d 2 patterns u others = rw hit at pair in
                  (
                    some (u, p ∷ others),
                    rw (found, nothing, later, hit) refl,
                    record {
                      upper = merge.upper;
                      rest = (hp, merge.rest);
                      fewer = omega (arith, merge.fewer);
                      covers = λ o c. elim c [
                        | inl here ↦ inr (inl here)
                        | inr there ↦ elim (merge.covers o there) [
                          | inl up ↦ inl up
                          | inr rest ↦ inr (inr rest)
                        ]
                      ];
                    },
                  )
            ]
      ]
