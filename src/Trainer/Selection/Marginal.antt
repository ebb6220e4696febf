-- ===== src/Trainer/Selection/Marginal.antt =====
-- What a pattern adds to a selection of patterns (src/trainer.cpp): the atoms below it that are below none of the
-- patterns selected before, and what `coverage` and the erased atoms have to do with them.
use byte_select.Prelude.{
  ℕ, ◌+◌, ◌%◌, ◌^◌, ◌≤◌, ◌<◌, ◌≡◌, refl, sym, ◌∙◌, ap, arith, Bool-cases, inl, inr,
}
use byte_select.Prelude.{
  Bool, false, not, ◌&&◌, ◌||◌, List, [], ◌∷◌, ◌++◌, length, All, if◌then◌else◌, Result, ok, err,
}
use byte_select.Pattern.{Pattern, less_equal}
use byte_select.Trainer.{Atom, coverage, coverage_loop}
use byte_select.Trainer.Order.{less_equal_ok}
use byte_select.Trainer.Selection.{remove_covered}

-- The answer of a comparison, and false for an exception.
unfoldable pub answer : Result Bool → Bool
answer (ok b) = b
answer (err e) = false

abbrev pub is_below : Pattern → Pattern → Bool
is_below p q = answer (less_equal p q)

-- Some pattern of the list is above the atom.
unfoldable pub is_covered : List Pattern → Atom → Bool
is_covered [] a = false
is_covered (p ∷ patterns) a = is_below a.pattern p || is_covered patterns a

-- The sum of the counts of the atoms below `p` that are below none of the patterns before it.
unfoldable pub newly_covered : List Pattern → Pattern → List Atom → ℕ
newly_covered before p [] = 0
newly_covered before p (a ∷ atoms) =
    (if is_below a.pattern p && not (is_covered before a) then a.count else 0)
    + newly_covered before p atoms

-- The same on 64 bits.
abbrev pub marginal : List Atom → List Pattern → Pattern → ℕ
marginal atoms before p = newly_covered before p atoms % 2 ^ 64

-- The atoms that are below none of the patterns.
unfoldable pub left_over : List Pattern → List Atom → List Atom
left_over before [] = []
left_over before (a ∷ atoms) =
    let rest = left_over before atoms in if is_covered before a then rest else a ∷ rest

pub left_over_all : (atoms : List Atom) → left_over [] atoms ≡ atoms
unfolding left_over is_covered
left_over_all [] = refl
left_over_all (a ∷ atoms) = ap (λ t. a ∷ t) (left_over_all atoms)

is_covered-append :
    (before : List Pattern) (p : Pattern) (a : Atom)
    → is_covered (before ++ (p ∷ [])) a ≡ is_covered before a || is_below a.pattern p
unfolding is_covered
is_covered-append [] p a = ground arith
is_covered-append (q ∷ before) p a =
    let rest = is_covered-append before p a in rw rest (ground arith)

-- A pattern that is selected covers nothing new behind that.
pub newly_covered-selected :
    (before : List Pattern) (p : Pattern) (atoms : List Atom)
    → newly_covered (before ++ (p ∷ [])) p atoms ≡ 0
unfolding newly_covered
newly_covered-selected before p [] = refl
newly_covered-selected before p (a ∷ atoms) =
    let rest = newly_covered-selected before p atoms in
    rw (is_covered-append before p a, rest) (ground arith)

-- The more is selected, the less does a pattern cover anew.
pub newly_covered-le :
    (before : List Pattern) (p q : Pattern) (atoms : List Atom)
    → newly_covered (before ++ (p ∷ [])) q atoms ≤ newly_covered before q atoms
unfolding newly_covered
newly_covered-le before p q [] = omega arith
newly_covered-le before p q (a ∷ atoms) =
    let rest = newly_covered-le before p q atoms in rw (is_covered-append before p a) (ground arith)

abbrev pub AreAtoms : ℕ → List Atom → Type 0
AreAtoms n atoms = All (λ (a : Atom). length a.pattern.symbols ≡ n) atoms

abbrev pub ArePatterns : ℕ → List Pattern → Type 0
ArePatterns n patterns = All (λ (p : Pattern). length p.symbols ≡ n) patterns

module _ (n : ℕ) where
  less_equal-is_below :
      (p q : Pattern)
      → length p.symbols ≡ n
      → length q.symbols ≡ n
      → less_equal p q ≡ ok (is_below p q)
  unfolding answer
  less_equal-is_below p q hp hq = let (b, e) = less_equal_ok p q (hp ∙ sym hq) in rw e refl

  coverage_loop-left_over :
      (p : Pattern) (before : List Pattern) (total : ℕ) (atoms : List Atom)
      → length p.symbols ≡ n
      → AreAtoms n atoms
      → total < 2 ^ 64
      → coverage_loop p total (left_over before atoms)
        ≡ ok ((total + newly_covered before p atoms) % 2 ^ 64)
  unfolding coverage_loop left_over newly_covered answer
  coverage_loop-left_over p before total [] hp h small = ap ok (omega arith)
  coverage_loop-left_over p before total (a ∷ atoms) hp (ha, h) small =
      elim (Bool-cases (is_covered before a)) [
        | inl old ↦
            rw old (coverage_loop-left_over p before total atoms hp h small ∙ ap ok (ground arith))
        | inr new ↦
            let compared = less_equal-is_below a.pattern p ha hp in
            elim (Bool-cases (is_below a.pattern p)) [
              | inl below ↦
                  let rest =
                    coverage_loop-left_over p before ((total + a.count) % 2 ^ 64) atoms hp h
                      (omega arith) in
                  rw (new, coverage_loop, compared, below, rest) (ap ok (omega arith))
              | inr apart ↦
                  let rest = coverage_loop-left_over p before total atoms hp h small in
                  rw (new, coverage_loop, compared, apart, rest) (ap ok (omega arith))
            ]
      ]

  -- The coverage of the atoms that are left.
  pub coverage-left_over :
      (p : Pattern) (before : List Pattern) (atoms : List Atom)
      → length p.symbols ≡ n
      → AreAtoms n atoms
      → coverage p (left_over before atoms) ≡ ok (marginal atoms before p)
  unfolding coverage
  coverage-left_over p before atoms hp h =
      coverage_loop-left_over p before 0 atoms hp h (omega arith) ∙ ap ok (omega arith)

  -- What is left behind one more pattern.
  pub remove_covered-left_over :
      (p : Pattern) (before : List Pattern) (atoms : List Atom)
      → length p.symbols ≡ n
      → AreAtoms n atoms
      → remove_covered p (left_over before atoms) ≡ ok (left_over (before ++ (p ∷ [])) atoms)
  unfolding remove_covered left_over answer
  remove_covered-left_over p before [] hp h = refl
  remove_covered-left_over p before (a ∷ atoms) hp (ha, h) =
      let rest = remove_covered-left_over p before atoms hp h in
      elim (Bool-cases (is_covered before a)) [
        | inl old ↦ rw (is_covered-append before p a, old) rest
        | inr new ↦
            let compared = less_equal-is_below a.pattern p ha hp in
            elim (Bool-cases (is_below a.pattern p)) [
              | inl below ↦
                  rw (is_covered-append before p a, new, remove_covered, compared, rest, below) refl
              | inr apart ↦
                  rw (is_covered-append before p a, new, remove_covered, compared, rest, apart) refl
            ]
      ]
