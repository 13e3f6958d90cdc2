-- ===== src/Examples/Diff.antt =====
-- Two assessments in src/agentit/assessment_diff.py.
use agent_it.Base.{List, [], ◌∷◌, ◌↔◌, In}
use agent_it.Diff.{Finding, AssessmentReport, delta_of, by_dimension, diff_assessments}
use agent_it.Diff.Findings.{IsMoved, diff_assessments-IsMoved}

abbrev latest_tag : Finding
latest_tag = record {
  category = "container";
  description = "Image uses :latest";
  severity = "high";
}

abbrev no_policy : Finding
no_policy = record { category = "network"; description = "No NetworkPolicy"; severity = "medium" }

abbrev security : List Finding → AssessmentReport
security findings = record {
  repo_name = "shop";
  scores = record { dimension = "security"; score = 60; findings = findings } ∷ [];
  overall_score = 60000;
}

diff_assessments-IsMoved_example :
    (In
        (delta_of "new" no_policy)
        (diff_assessments (security (latest_tag ∷ [])) (security (no_policy ∷ []))).new_findings
      ↔ IsMoved "new"
          (by_dimension (security (no_policy ∷ [])))
          (by_dimension (security (latest_tag ∷ [])))
          (delta_of "new" no_policy))
    × (In
          (delta_of "new" no_policy)
          (diff_assessments
            (security (latest_tag ∷ []))
            (security (no_policy ∷ []))).resolved_findings
        ↔ IsMoved "resolved"
            (by_dimension (security (latest_tag ∷ [])))
            (by_dimension (security (no_policy ∷ [])))
            (delta_of "new" no_policy))
diff_assessments-IsMoved_example =
    diff_assessments-IsMoved (security (latest_tag ∷ [])) (security (no_policy ∷ []))
      (delta_of "new" no_policy)
