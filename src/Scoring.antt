-- ===== src/Scoring.antt =====
-- src/agentit/scoring.py and src/agentit/interfaces/score_aggregate.py: the score of a dimension as
-- the ratio of its passed controls, and the weighted overall score. The theorems stand in
-- Scoring/Controls, Scoring/Dimensions and Scoring/Overall.
pub mod Rounding
pub mod Controls
pub mod Dimensions
pub mod Overall
use agent_it.Base.{
  ℕ, ◌+◌, ◌-◌, ◌*◌, ◌/◌, ◌%◌, min, max, String, Bool, true, false, ◌&&◌, not, Option, none, some,
  List, [], ◌∷◌, map, any, count_if, length, is_empty, ◌==◌, ltb, leb, get_or, if◌then◌else◌,
  str_eq, string_eq, is_empty_text, lookup, lower, group_from, members,
}

pub data Severity : Type 0 where
  critical high medium low info : Severity

abbrev pub is_info : Severity → Bool
is_info info = true
is_info _ = false

pub record Finding : Type 0 where
  pub category : String
  pub severity : Severity
  pub description : String
  pub source : String

-- A row of the data-driven checks.
pub record CheckRow : Type 0 where
  pub check_name : String
  pub dimension : String
  pub passed : Bool

pub record DimensionScore : Type 0 where
  pub dimension : String
  pub score : ℕ
  pub max_score : ℕ
  pub findings : List Finding

abbrev pub score_good : ℕ
score_good = 70

abbrev pub score_ok : ℕ
score_ok = 40

abbrev pub analyzer_baseline_controls : ℕ
analyzer_baseline_controls = 8

unfoldable pub letter_grade : ℕ → String
letter_grade s =
    if leb 90 s
    then "A"
    else if leb 80 s
    then "B"
    else if leb score_good s
    then "C"
    else if leb score_ok s
    then "D"
    else "F"

unfoldable pub score_band : ℕ → String
score_band score =
    if ltb score_good score then "good" else if leb score_ok score then "ok" else "poor"

-- `round(n / d)`: to the nearest, and a tie to the even one
unfoldable pub round_ratio : ℕ → ℕ → ℕ
round_ratio n d =
    let q = n / d in
    let r = n % d in
    if ltb (2 * r) d then q else if ltb d (2 * r) then q + 1 else if (q % 2) == 0 then q else q + 1

abbrev pub is_failed : Finding → Bool
is_failed f = not (is_info f.severity)

-- `f.source or f.category`
abbrev pub check_of : Finding → String
check_of f = if is_empty_text f.source then f.category else f.source

abbrev pub is_checked : List CheckRow → Finding → Bool
is_checked rows f = any (λ (r : CheckRow). str_eq r.check_name (check_of f)) rows

abbrev pub is_orphan : List CheckRow → Finding → Bool
is_orphan rows f = is_failed f && not (is_checked rows f)

-- `passed` and `applicable`
abbrev pub controls : List Finding → List CheckRow → ℕ × ℕ
controls findings [] =
    let fails = count_if is_failed findings in
    let applicable = max analyzer_baseline_controls fails in (applicable - fails, applicable)
controls findings (r ∷ rows) = (
  count_if (λ (c : CheckRow). c.passed) (r ∷ rows),
  length (r ∷ rows) + count_if (is_orphan (r ∷ rows)) findings,
)

abbrev pub of_controls : ℕ × ℕ → ℕ
of_controls (passed, applicable) =
    if applicable == 0 then 100 else min 100 (round_ratio (100 * passed) applicable)

unfoldable pub calculate_dimension_score_v2 : List Finding → List CheckRow → ℕ
calculate_dimension_score_v2 findings check_rows = of_controls (controls findings check_rows)

abbrev pub by_dimension : List CheckRow → List (String × List CheckRow)
by_dimension check_statuses = group_from (λ (r : CheckRow). r.dimension) [] check_statuses

abbrev pub rescored : List (String × List CheckRow) → DimensionScore → DimensionScore
rescored by_dim sc = record {
  dimension = sc.dimension;
  score = calculate_dimension_score_v2 sc.findings (get_or [] (lookup sc.dimension by_dim));
  max_score = sc.max_score;
  findings = sc.findings;
}

unfoldable pub apply_score_model_v2 : List DimensionScore → List CheckRow → List DimensionScore
unfolding group_from
apply_score_model_v2 scores check_statuses = map (rescored (by_dimension check_statuses)) scores

-- `DIMENSION_WEIGHTS`, in hundredths; the dimensions that are left out have the weight 1.0
abbrev critical_weights : List (String × ℕ)
critical_weights =
    ("security", 160)
    ∷ ("compliance", 140)
    ∷ ("ha_dr", 120)
    ∷ ("infrastructure", 110)
    ∷ ("cicd", 100)
    ∷ ("observability", 100)
    ∷ ("data_governance", 90)
    ∷ []

abbrev high_weights : List (String × ℕ)
high_weights =
    ("security", 140)
    ∷ ("compliance", 120)
    ∷ ("ha_dr", 115)
    ∷ ("infrastructure", 105)
    ∷ ("cicd", 100)
    ∷ ("observability", 100)
    ∷ ("data_governance", 95)
    ∷ []

abbrev pub medium_weights : List (String × ℕ)
medium_weights =
    ("security", 115)
    ∷ ("compliance", 105)
    ∷ ("ha_dr", 100)
    ∷ ("infrastructure", 100)
    ∷ ("cicd", 100)
    ∷ ("observability", 100)
    ∷ ("data_governance", 100)
    ∷ []

abbrev low_weights : List (String × ℕ)
low_weights =
    ("security", 100)
    ∷ ("compliance", 100)
    ∷ ("ha_dr", 100)
    ∷ ("infrastructure", 100)
    ∷ ("cicd", 100)
    ∷ ("observability", 100)
    ∷ ("data_governance", 100)
    ∷ []

abbrev pub dimension_weights : List (String × List (String × ℕ))
dimension_weights =
    ("critical", critical_weights)
    ∷ ("high", high_weights)
    ∷ ("medium", medium_weights)
    ∷ ("low", low_weights)
    ∷ []

unfoldable pub dimension_weights_for : String → List (String × ℕ)
dimension_weights_for criticality =
    let key = lower (if is_empty_text criticality then "medium" else criticality) in
    get_or medium_weights (lookup key dimension_weights)

abbrev pub weight_of : List (String × ℕ) → DimensionScore → ℕ
weight_of weights sc = get_or 100 (lookup sc.dimension weights)

-- `acc` and `total_w`, in hundredths
abbrev pub weighted_sum : List (String × ℕ) → List DimensionScore → ℕ × ℕ
weighted_sum weights [] = (0, 0)
weighted_sum weights (sc ∷ scores) =
    let rest = weighted_sum weights scores in
    (sc.score * weight_of weights sc + rest.0, weight_of weights sc + rest.1)

-- `round_quotient n d` is `round(n / d, 2)` on floats, in hundredths.
module _ (round_quotient : ℕ → ℕ → ℕ) where
  abbrev pub of_sum : ℕ × ℕ → ℕ
  of_sum (acc, total_w) = if total_w == 0 then 0 else round_quotient acc total_w

  unfoldable pub weighted_overall_score : List DimensionScore → String → ℕ
  unfolding dimension_weights_for
  weighted_overall_score scores criticality =
      of_sum (weighted_sum (dimension_weights_for criticality) scores)
