-- ===== src/Scoring/Overall.antt =====
-- The weighted overall score.
use native.Mathlib.Nat.{mul-le-mul_right}
use agent_it.Base.{
  ℕ, ◌*◌, ◌≤◌, String, Bool, true, false, List, [], ◌∷◌, ◌≡◌, inl, inr, refl, arith, all, all-In,
  leb, leb→le, get_or, lookup, lookup-In, string_eq, All, is_empty_text, lower, if◌then◌else◌,
  Option-cases, ◌==◌,
}
use agent_it.Scoring.{
  DimensionScore, dimension_weights, medium_weights, dimension_weights_for, weight_of, weighted_sum,
  weighted_overall_score,
}

-- All weights of a table are positive.
abbrev is_positive : List (String × ℕ) → Bool
is_positive weights = all (λ (e : String × ℕ). leb 1 e.1) weights

weight_of-positive :
    (weights : List (String × ℕ)) (sc : DimensionScore)
    → is_positive weights ≡ true
    → 1 ≤ weight_of weights sc
weight_of-positive weights sc h = elim (Option-cases (lookup sc.dimension weights)) [
  | inl absent ↦ rw absent (omega arith)
  | inr (w, found) ↦ rw found (
      leb→le 1 w (
        all-In (λ (e : String × ℕ). leb 1 e.1) (sc.dimension, w) weights h
          (lookup-In sc.dimension w weights found)))
]

dimension_weights_for-positive :
    (criticality : String) → is_positive (dimension_weights_for criticality) ≡ true
unfolding dimension_weights_for
dimension_weights_for-positive criticality =
    of_key (lower (if is_empty_text criticality then "medium" else criticality))
  where
    of_key :
        (key : String) → is_positive (get_or medium_weights (lookup key dimension_weights)) ≡ true
    of_key key = elim (Option-cases (lookup key dimension_weights)) [
      | inl absent ↦ rw absent refl
      | inr (weights, found) ↦ rw found (
          all-In (λ (t : String × List (String × ℕ)). is_positive t.1) (key, weights)
            dimension_weights refl (lookup-In key weights dimension_weights found))
    ]

-- Rounding to two decimals is monotone and leaves a whole score as it is.
abbrev pub IsRounding : (ℕ → ℕ → ℕ) → Type 0
IsRounding round_quotient =
    (k n d : ℕ)
    → 1 ≤ d
    → (k * d ≤ n → 100 * k ≤ round_quotient n d) × (n ≤ k * d → round_quotient n d ≤ 100 * k)

module _ (lo hi : ℕ) where
  abbrev pub IsWithin : DimensionScore → Type 0
  IsWithin sc = (lo ≤ sc.score) × (sc.score ≤ hi)

  sum-within :
      (weights : List (String × ℕ)) (scores : List DimensionScore)
      → All IsWithin scores
      → (lo * (weighted_sum weights scores).1 ≤ (weighted_sum weights scores).0)
        × ((weighted_sum weights scores).0 ≤ hi * (weighted_sum weights scores).1)
  sum-within weights [] h = (omega arith, omega arith)
  sum-within weights (sc ∷ scores) ((ge, le), hs) =
      let w = weight_of weights sc in
      let (a, b) = sum-within weights scores hs in
      (omega (arith, mul-le-mul_right w ge, a), omega (arith, mul-le-mul_right w le, b))

  -- The overall score of one or more dimensions, in hundredths, lies between the least and the
  -- greatest of their scores, for every criticality, where the rounding of a float is monotone and
  -- leaves a whole number as it is.
  pub weighted_overall_score-IsWithin :
      (round_quotient : ℕ → ℕ → ℕ) (first : DimensionScore) (rest : List DimensionScore)
      (criticality : String)
      → IsRounding round_quotient
      → All IsWithin (first ∷ rest)
      → (100 * lo ≤ weighted_overall_score round_quotient (first ∷ rest) criticality)
        × (weighted_overall_score round_quotient (first ∷ rest) criticality ≤ 100 * hi)
  unfolding weighted_overall_score
  weighted_overall_score-IsWithin round_quotient first rest criticality rounds within =
      let weights = dimension_weights_for criticality in
      let (a, b) = sum-within weights (first ∷ rest) within in
      let positive =
        weight_of-positive weights first (dimension_weights_for-positive criticality) in
      let (acc, total) = weighted_sum weights (first ∷ rest) in
      let some_weight : 1 ≤ total = (omega (arith, positive)) in
      rw (not_zero total some_weight)
        ((rounds lo acc total some_weight).0 a, (rounds hi acc total some_weight).1 b)
    where
      not_zero : (n : ℕ) → 1 ≤ n → (n == 0) ≡ false
      not_zero n h = ground arith
