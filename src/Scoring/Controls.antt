-- ===== src/Scoring/Controls.antt =====
-- The score of a dimension against its controls.
use native.Mathlib.Nat.{mul-le-mul, mul-le-mul_right, mul-le-mul_left}
use agent_it.Base.{
  ℕ, ◌*◌, ◌≤◌, ◌<◌, ◌≡◌, List, [], ◌∷◌, inl, inr, arith, min, ltb, ltb→lt, ◌==◌, Bool, Bool-cases,
  false, count_if, length-keep_if-le,
}
use agent_it.Scoring.{
  Finding, CheckRow, is_failed, is_orphan, controls, of_controls, round_ratio,
  calculate_dimension_score_v2,
}
use agent_it.Scoring.Rounding.{IsRound, IsRound-monotone, round_ratio-IsRound}

controls-positive :
    (findings : List Finding) (rows : List CheckRow) → 0 < (controls findings rows).1
controls-positive findings [] = omega arith
controls-positive findings (r ∷ rows) = omega arith

controls-le :
    (findings : List Finding) (rows : List CheckRow)
    → (controls findings rows).0 ≤ (controls findings rows).1
controls-le findings [] = omega arith
controls-le findings (r ∷ rows) =
    omega (arith, length-keep_if-le (λ (c : CheckRow). c.passed) (r ∷ rows))

IsRound-le_100 : (p a s : ℕ) → 0 < a → p ≤ a → IsRound (100 * p) a s → s ≤ 100
IsRound-le_100 p a s pos le h = elim (Bool-cases (ltb 100 s)) [
  | inr not_less ↦ ground (arith, not_less)
  | inl less ↦ absurd (omega (arith, mul-le-mul_right a (ltb→lt 100 s less), h.low, le, pos))
]

of_controls-eq : (p a : ℕ) → 0 < a → p ≤ a → of_controls (p, a) ≡ round_ratio (100 * p) a
of_controls-eq p a pos le = rw (not_zero a pos) (
    at_most (round_ratio (100 * p) a)
      (IsRound-le_100 p a (round_ratio (100 * p) a) pos le (round_ratio-IsRound (100 * p) a pos)))
  where
    not_zero : (n : ℕ) → 0 < n → (n == 0) ≡ false
    not_zero n h = ground arith

    at_most : (s : ℕ) → s ≤ 100 → min 100 s ≡ s
    at_most s h = omega arith

-- Fewer passed of more controls is not a better score.
of_controls-monotone :
    (p a q b : ℕ)
    → 0 < a
    → 0 < b
    → p ≤ a
    → q ≤ b
    → q ≤ p
    → a ≤ b
    → of_controls (q, b) ≤ of_controls (p, a)
of_controls-monotone p a q b a_pos b_pos p_le q_le fewer more =
    rw (of_controls-eq p a a_pos p_le, of_controls-eq q b b_pos q_le)
      (IsRound-monotone (100 * q) b _ (100 * p) a _ b_pos a_pos
        (mul-le-mul (mul-le-mul_left 100 fewer) more) (round_ratio-IsRound (100 * q) b b_pos)
        (round_ratio-IsRound (100 * p) a a_pos))

-- The score of a dimension is at most 100 and is the percentage of its passed controls among the
-- applicable ones, to the nearest whole number and to the even one of two: there is at least one
-- control, and no more pass than there are.
pub calculate_dimension_score_v2-IsRound :
    (findings : List Finding) (rows : List CheckRow)
    → let (passed, applicable) = controls findings rows in
      (0 < applicable)
      × (passed ≤ applicable)
      × (calculate_dimension_score_v2 findings rows ≤ 100)
      × IsRound (100 * passed) applicable (calculate_dimension_score_v2 findings rows)
unfolding calculate_dimension_score_v2
calculate_dimension_score_v2-IsRound findings rows =
    let (passed, applicable) = controls findings rows in
    let pos = controls-positive findings rows in
    let le = controls-le findings rows in
    let round = round_ratio-IsRound (100 * passed) applicable pos in
    rw (of_controls-eq passed applicable pos le) (
      pos,
      le,
      IsRound-le_100 passed applicable (round_ratio (100 * passed) applicable) pos le round,
      round,
    )

count_if-cons :
    {A : Type 0} (p : A → Bool) (x : A) (xs : List A) → count_if p xs ≤ count_if p (x ∷ xs)
count_if-cons p x xs = ground arith

controls-cons :
    (f : Finding) (findings : List Finding) (rows : List CheckRow)
    → ((controls (f ∷ findings) rows).0 ≤ (controls findings rows).0)
      × ((controls findings rows).1 ≤ (controls (f ∷ findings) rows).1)
controls-cons f findings [] = (
  omega (arith, count_if-cons is_failed f findings),
  omega (arith, count_if-cons is_failed f findings),
)
controls-cons f findings (r ∷ rows) =
    (omega arith, omega (arith, count_if-cons (is_orphan (r ∷ rows)) f findings))

-- One more finding, of any severity and whatever the check rows are, does not raise the score of
-- its dimension.
pub calculate_dimension_score_v2-monotone :
    (f : Finding) (findings : List Finding) (rows : List CheckRow)
    → calculate_dimension_score_v2 (f ∷ findings) rows ≤ calculate_dimension_score_v2 findings rows
unfolding calculate_dimension_score_v2
calculate_dimension_score_v2-monotone f findings rows =
    of_controls-monotone (controls findings rows).0 (controls findings rows).1
      (controls (f ∷ findings) rows).0 (controls (f ∷ findings) rows).1
      (controls-positive findings rows) (controls-positive (f ∷ findings) rows)
      (controls-le findings rows) (controls-le (f ∷ findings) rows)
      (controls-cons f findings rows).0 (controls-cons f findings rows).1
