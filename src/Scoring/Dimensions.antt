-- ===== src/Scoring/Dimensions.antt =====
-- The rescored dimensions.
use agent_it.Base.{
  List, [], ◌∷◌, ◌≡◌, refl, ap, map, keep_if, str_eq, string_eq, lookup, members-group_from,
}
use agent_it.Scoring.{
  CheckRow, DimensionScore, calculate_dimension_score_v2, by_dimension, rescored,
  apply_score_model_v2,
}

-- The rows of a dimension, read off the whole list of the check rows.
abbrev pub rescored_alone : List CheckRow → DimensionScore → DimensionScore
rescored_alone check_statuses sc = record sc {
  score =
      calculate_dimension_score_v2 sc.findings
        (keep_if (λ (r : CheckRow). str_eq r.dimension sc.dimension) check_statuses);
}

rows_of :
    (check_statuses : List CheckRow) (sc : DimensionScore)
    → rescored (by_dimension check_statuses) sc ≡ rescored_alone check_statuses sc
unfolding lookup
rows_of check_statuses sc =
    ap
      (λ (rows : List CheckRow). record sc {
        score = calculate_dimension_score_v2 sc.findings rows;
      })
      (members-group_from (λ (r : CheckRow). r.dimension) sc.dimension [] check_statuses)

-- Rescoring takes the dimensions in their order and changes nothing but their scores, and the score
-- of each is that of its findings and of the check rows of its own dimension, in their order.
pub apply_score_model_v2-rescored_alone :
    (scores : List DimensionScore) (check_statuses : List CheckRow)
    → apply_score_model_v2 scores check_statuses ≡ map (rescored_alone check_statuses) scores
unfolding apply_score_model_v2
apply_score_model_v2-rescored_alone [] check_statuses = refl
apply_score_model_v2-rescored_alone (sc ∷ scores) check_statuses =
    λ i. rows_of check_statuses sc i ∷ apply_score_model_v2-rescored_alone scores check_statuses i
