-- ===== src/Codec/Sorting.antt =====
-- The order in which `compress` tries the sets.
use byte_select.Prelude.{ℕ, zero, suc, ◌+◌, ◌≤◌, ◌<◌, arith}
use native.Mathlib.Decide.{ℕ_discrete}
use byte_select.Prelude.{List, [], ◌∷◌, All, ltb, Bool-cases, inl, inr}
use byte_select.Codec.{Model}
use byte_select.Codec.Compress.{set_at, insert_by_target, sort_by_target, indices}

All-insert_by_target :
    (m : Model) (P : ℕ → Type 0) (a : ℕ) (order : List ℕ)
    → P a
    → All P order
    → All P (insert_by_target m a order)
unfolding insert_by_target
All-insert_by_target m P a [] pa ps = (pa, tt)
All-insert_by_target m P a (b ∷ order) pa (pb, ps) =
    elim (Bool-cases (ltb (set_at m b).target_size (set_at m a).target_size)) [
      | inl behind ↦ rw behind (pb, All-insert_by_target m P a order pa ps)
      | inr before ↦ rw before (pa, (pb, ps))
    ]

pub All-sort_by_target :
    (m : Model) (P : ℕ → Type 0) (order : List ℕ) → All P order → All P (sort_by_target m order)
unfolding sort_by_target
All-sort_by_target m P [] ps = tt
All-sort_by_target m P (a ∷ order) (pa, ps) =
    All-insert_by_target m P a (sort_by_target m order) pa (All-sort_by_target m P order ps)

pub indices-lt : (i n bound : ℕ) → i + n ≤ bound → All (λ k. k < bound) (indices i n)
unfolding indices
indices-lt i zero bound h = tt
indices-lt i (suc n) bound h = (omega arith, indices-lt (i + 1) n bound (omega arith))

-- In the order, no set comes before one with a smaller target.
unfoldable pub IsOrdered : Model → List ℕ → Type 0
IsOrdered m [] = Unit {0}
IsOrdered m (a ∷ order) =
    All (λ b. (set_at m a).target_size ≤ (set_at m b).target_size) order × IsOrdered m order

All-after :
    (m : Model) (a b : ℕ) (order : List ℕ)
    → (set_at m a).target_size ≤ (set_at m b).target_size
    → All (λ c. (set_at m b).target_size ≤ (set_at m c).target_size) order
    → All (λ c. (set_at m a).target_size ≤ (set_at m c).target_size) order
All-after m a b [] h hs = tt
All-after m a b (c ∷ order) h (hc, hs) = (omega arith, All-after m a b order h hs)

insert_by_target-IsOrdered :
    (m : Model) (a : ℕ) (order : List ℕ)
    → IsOrdered m order
    → IsOrdered m (insert_by_target m a order)
unfolding insert_by_target IsOrdered
insert_by_target-IsOrdered m a [] h = (tt, tt)
insert_by_target-IsOrdered m a (b ∷ order) (hb, h) =
    elim (Bool-cases (ltb (set_at m b).target_size (set_at m a).target_size)) [
      | inl behind ↦ rw behind (
        All-insert_by_target m (λ c. (set_at m b).target_size ≤ (set_at m c).target_size) a order
            (ground arith) hb,
        insert_by_target-IsOrdered m a order h,
      )
      | inr before ↦ rw before ((ground arith, All-after m a b order (ground arith) hb), (hb, h))
    ]

pub sort_by_target-IsOrdered : (m : Model) (order : List ℕ) → IsOrdered m (sort_by_target m order)
unfolding sort_by_target IsOrdered
sort_by_target-IsOrdered m [] = tt
sort_by_target-IsOrdered m (a ∷ order) =
    insert_by_target-IsOrdered m a (sort_by_target m order) (sort_by_target-IsOrdered m order)

-- What holds of all indices in the order holds of all that were put there.
inserted-All :
    (m : Model) (P : ℕ → Type 0) (a : ℕ) (order : List ℕ)
    → All P (insert_by_target m a order)
    → P a × All P order
unfolding insert_by_target
inserted-All m P a [] h = h
inserted-All m P a (b ∷ order) h =
    elim (Bool-cases (ltb (set_at m b).target_size (set_at m a).target_size)) [
      | inl behind ↦
          let (hb, hs) = rw behind at h in
          let (ha, rest) = inserted-All m P a order hs in (ha, (hb, rest))
      | inr before ↦ rw before at h
    ]

pub sorted-All :
    (m : Model) (P : ℕ → Type 0) (order : List ℕ) → All P (sort_by_target m order) → All P order
unfolding sort_by_target
sorted-All m P [] h = tt
sorted-All m P (a ∷ order) h =
    let (ha, hs) = inserted-All m P a (sort_by_target m order) h in (ha, sorted-All m P order hs)

pub indices-All : (P : ℕ → Type 0) (i n k : ℕ) → All P (indices i n) → i ≤ k → k < i + n → P k
unfolding indices
indices-All P i zero k h low high = absurd (omega arith)
indices-All P i (suc n) k (hi, h) low high = elim (ℕ_discrete i k) [
  | yes e ↦ rw e at hi
  | no ne ↦ indices-All P (i + 1) n k h (omega arith) (omega arith)
]
