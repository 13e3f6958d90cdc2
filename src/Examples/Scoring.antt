-- ===== src/Examples/Scoring.antt =====
-- Dimensions of one assessment in src/agentit/scoring.py.
use native.Mathlib.Nat.{le-div_iff_mul-le, div-le_of_le-mul}
use agent_it.Base.{ℕ, ◌*◌, ◌/◌, ◌≤◌, String, true, List, [], ◌∷◌, ◌≡◌, refl, arith}
use agent_it.Scoring.{
  Finding, Severity, high, info, CheckRow, DimensionScore, controls, calculate_dimension_score_v2,
  apply_score_model_v2, weighted_overall_score, letter_grade, score_band,
}
use agent_it.Scoring.Controls.{calculate_dimension_score_v2-monotone}
use agent_it.Scoring.Overall.{IsRounding, weighted_overall_score-IsWithin}

abbrev open_port : Finding
open_port = record {
  category = "network_policy";
  severity = high;
  description = "open port";
  source = "";
}

abbrev check : String → CheckRow
check name = record { check_name = name; dimension = "security"; passed = true }

abbrev checks : List CheckRow
checks = check "rbac" ∷ check "probes" ∷ []

-- Two of three controls pass.
two_of_three : calculate_dimension_score_v2 (open_port ∷ []) checks ≡ 67
unfolding calculate_dimension_score_v2 agent_it.Scoring.round_ratio
two_of_three = refl

-- A score of exactly 70 has the grade of a good score, and the band of one that is not.
at_seventy : (letter_grade 70 ≡ "C") × (score_band 70 ≡ "ok")
unfolding letter_grade score_band
at_seventy = (refl, refl)

calculate_dimension_score_v2-monotone_example :
    calculate_dimension_score_v2 (open_port ∷ []) checks ≤ calculate_dimension_score_v2 [] checks
calculate_dimension_score_v2-monotone_example =
    calculate_dimension_score_v2-monotone open_port [] checks

abbrev scores : List DimensionScore
scores =
    record { dimension = "security"; score = 60; max_score = 100; findings = open_port ∷ [] }
    ∷ record { dimension = "cicd"; score = 90; max_score = 100; findings = [] }
    ∷ []

-- Cutting after two decimals.
abbrev cut : ℕ → ℕ → ℕ
cut n d = 100 * n / d

cut-IsRounding : IsRounding cut
cut-IsRounding k n d pos = (
  λ h. (le-div_iff_mul-le {x = 100 * k} {y = 100 * n} pos).1 (omega (arith, h)),
  λ h. div-le_of_le-mul d (omega (arith, h)),
)

weighted_overall_score-IsWithin_example :
    (100 * 60 ≤ weighted_overall_score cut scores "high")
    × (weighted_overall_score cut scores "high" ≤ 100 * 90)
weighted_overall_score-IsWithin_example =
    weighted_overall_score-IsWithin 60 90 cut
      (record { dimension = "security"; score = 60; max_score = 100; findings = open_port ∷ [] })
      (record { dimension = "cicd"; score = 90; max_score = 100; findings = [] } ∷ []) "high"
      cut-IsRounding ((omega arith, omega arith), ((omega arith, omega arith), tt))
