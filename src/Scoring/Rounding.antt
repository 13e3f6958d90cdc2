-- ===== src/Scoring/Rounding.antt =====
-- The ratio of the passed controls, rounded half to even.
use native.Mathlib.Nat.{
  mod-eq-sub-div-mul, div-mul-le_self, lt-div-mul-add, mul-le-mul_right, mul-le-mul,
}
use agent_it.Base.{
  ℕ, ◌+◌, ◌*◌, ◌/◌, ◌%◌, ◌≤◌, ◌<◌, ◌≡◌, inl, inr, arith, ltb, ltb→lt, ◌==◌, ==→eq, Bool-cases,
  false,
}
use agent_it.Scoring.{round_ratio}

-- `s` is nearest to `n / d`, and even where two are.
pub record IsRound (n d s : ℕ) : Type 0 where
  pub low : 2 * (s * d) ≤ 2 * n + d
  pub high : 2 * n ≤ 2 * (s * d) + d
  pub low_even : 2 * (s * d) ≡ 2 * n + d → s % 2 ≡ 0
  pub high_even : 2 * n ≡ 2 * (s * d) + d → s % 2 ≡ 0

module _ (n d q r : ℕ) (split : n ≡ q * d + r) (rest : r < d) where
  down : 2 * r < d → IsRound n d q
  down h = record {
    low = omega arith;
    high = omega arith;
    low_even = λ e. absurd (omega arith);
    high_even = λ e. absurd (omega arith);
  }

  up : d < 2 * r → IsRound n d (q + 1)
  up h = record {
    low = omega arith;
    high = omega arith;
    low_even = λ e. absurd (omega arith);
    high_even = λ e. absurd (omega arith);
  }

  tie_down : 2 * r ≡ d → q % 2 ≡ 0 → IsRound n d q
  tie_down h even = record {
    low = omega arith;
    high = omega arith;
    low_even = λ e. even;
    high_even = λ e. even;
  }

  tie_up : 2 * r ≡ d → (q + 1) % 2 ≡ 0 → IsRound n d (q + 1)
  tie_up h even = record {
    low = omega arith;
    high = omega arith;
    low_even = λ e. even;
    high_even = λ e. even;
  }

ltb-false : (a b : ℕ) → ltb a b ≡ false → b ≤ a
ltb-false a b h = ground arith

==-false : (a : ℕ) → (a % 2 == 0) ≡ false → (a + 1) % 2 ≡ 0
==-false a h = ground arith

pub round_ratio-IsRound : (n d : ℕ) → 0 < d → IsRound n d (round_ratio n d)
unfolding round_ratio
round_ratio-IsRound n d pos =
    let q = n / d in
    let r = n % d in
    let split : n ≡ q * d + r = (omega (arith, mod-eq-sub-div-mul n d, div-mul-le_self n d)) in
    let rest : r < d = (omega (arith, mod-eq-sub-div-mul n d, lt-div-mul-add {a = n} pos)) in
    elim (Bool-cases (ltb (2 * r) d)) [
      | inl less ↦ rw less (down n d q r split rest (ltb→lt _ _ less))
      | inr not_less ↦ elim (Bool-cases (ltb d (2 * r))) [
        | inl more ↦ rw (not_less, more) (up n d q r split rest (ltb→lt _ _ more))
        | inr not_more ↦
            let tie : 2 * r ≡ d = (omega (arith, ltb-false _ _ not_less, ltb-false _ _ not_more)) in
            elim (Bool-cases (q % 2 == 0)) [
              | inl even ↦
                  rw (not_less, not_more, even) (tie_down n d q r split rest tie (==→eq _ _ even))
              | inr odd ↦
                  rw (not_less, not_more, odd) (tie_up n d q r split rest tie (==-false q odd))
            ]
      ]
    ]

-- A greater ratio is not rounded to less.
pub IsRound-monotone :
    (n d s m e t : ℕ) → 0 < d → 0 < e → n * e ≤ m * d → IsRound n d s → IsRound m e t → s ≤ t
IsRound-monotone n d s m e t d_pos e_pos le a b = elim (Bool-cases (ltb t s)) [
  | inr not_less ↦ ltb-false t s not_less
  | inl less ↦ absurd (clash (ltb→lt t s less))
]
  where
    tie_of : (x y c : ℕ) → x ≤ y → 0 < c → y * c ≤ x * c → x ≡ y
    tie_of x y c h pos back = elim (Bool-cases (ltb x y)) [
      | inr not_less ↦ omega (arith, ltb-false x y not_less, h)
      | inl less ↦ absurd (omega (arith, mul-le-mul_right c (ltb→lt x y less), back, pos))
    ]

    clash : t < s → ⊥
    clash lt =
        let lt' : t + 1 ≤ s = (omega (arith, lt)) in
        let size : 0 < d * e = (omega (arith, mul-le-mul {n₁ = 1} {m₁ = 1} d_pos e_pos)) in
        let low_e : 2 * (s * (d * e)) ≤ 2 * (n * e) + d * e =
          (omega (arith, mul-le-mul_right e a.low)) in
        let high_d : 2 * (m * d) ≤ 2 * (t * (d * e)) + d * e =
          (omega (arith, mul-le-mul_right d b.high)) in
        let one_more : (t + 1) * (d * e) ≤ s * (d * e) = mul-le-mul_right (d * e) lt' in
        let low_tie : 2 * (s * d) ≡ 2 * n + d =
          (tie_of (2 * (s * d)) (2 * n + d) e a.low e_pos
            (omega (arith, low_e, high_d, one_more, le))) in
        let high_tie : 2 * m ≡ 2 * (t * e) + e =
          (tie_of (2 * m) (2 * (t * e) + e) d b.high d_pos
            (omega (arith, low_e, high_d, one_more, le))) in
        let next : s ≡ t + 1 = (elim (Bool-cases (ltb (t + 1) s)) [
          | inr not_less ↦ omega (arith, ltb-false (t + 1) s not_less, lt')
          | inl less ↦ absurd (
              omega
                (arith, mul-le-mul_right (d * e) (ltb→lt (t + 1) s less), low_e, high_d, le, size))
        ]) in
        omega (arith, a.low_even low_tie, b.high_even high_tie, next)
