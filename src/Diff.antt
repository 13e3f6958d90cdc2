-- ===== src/Diff.antt =====
-- src/agentit/assessment_diff.py: what changed between two assessments of a repository. The
-- theorems stand in Diff/Findings and Diff/Same.
pub mod Findings
pub mod Same
use agent_it.Base.{
  ℕ, zero, suc, ◌+◌, ◌*◌, String, Bool, true, false, not, Option, none, some, List, [], ◌∷◌, ◌++◌,
  map, any, keep_if, ltb, if◌then◌else◌, lookup, insert, get_or, string_eq, str_eq, lower, contains,
  pair_eq, Eq, sort_by, prefix,
}
use agent_it.Registry.{FindingKey}
use agent_it.Registry.Table.{fix_registry}
use agent_it.Registry.Lines.{distinct}

-- The fields of models.py that the comparison reads; `severity` is the name of the enum.
pub record Finding : Type 0 where
  pub category : String
  pub description : String
  pub severity : String

pub record DimensionScore : Type 0 where
  pub dimension : String
  pub score : ℕ
  pub findings : List Finding

-- The overall score is a float: here it is a number of thousandths of a point.
pub record AssessmentReport : Type 0 where
  pub repo_name : String
  pub scores : List DimensionScore
  pub overall_score : ℕ

unfoldable pub finding_key : String → String → FindingKey
unfolding prefix
finding_key category description = (category, prefix 80 (lower description))

unfoldable pub key_of : Finding → FindingKey
unfolding finding_key
key_of f = finding_key f.category f.description

instance abbrev pub finding_key_eq : Eq FindingKey
finding_key_eq = pair_eq string_eq string_eq

-- A set of keys is a list.
abbrev pub is_key : List Finding → FindingKey → Bool
is_key fs k = any (λ (f : Finding). finding_key_eq.beq (key_of f) k) fs

unfoldable pub all_findings : List DimensionScore → List Finding
all_findings [] = []
all_findings (s ∷ scores) = s.findings ++ all_findings scores

unfoldable pub current_finding_keys : AssessmentReport → List FindingKey
unfolding all_findings
current_finding_keys report = map key_of (all_findings report.scores)

pub record FindingDelta : Type 0 where
  pub category : String
  pub description : String
  pub severity : String
  pub status : String

abbrev pub delta_of : String → Finding → FindingDelta
delta_of status f = record {
  category = f.category;
  description = f.description;
  severity = f.severity;
  status = status;
}

-- The `delta` of the source is the difference of the two scores.
pub record DimensionDelta : Type 0 where
  pub dimension : String
  pub old_score : ℕ
  pub new_score : ℕ
  pub new_findings : List FindingDelta
  pub resolved_findings : List FindingDelta

pub record AssessmentDiff : Type 0 where
  pub repo_name : String
  pub old_overall : ℕ
  pub new_overall : ℕ
  pub dimension_deltas : List DimensionDelta
  pub new_findings : List FindingDelta
  pub resolved_findings : List FindingDelta
  pub auto_fixable : List FindingDelta

abbrev five_points : ℕ
five_points = 5000

-- `overall_delta < -5`, and `overall_delta > 5`
unfoldable pub is_degraded : AssessmentDiff → Bool
is_degraded d = ltb (d.new_overall + five_points) d.old_overall

unfoldable pub is_improved : AssessmentDiff → Bool
is_improved d = ltb (d.old_overall + five_points) d.new_overall

abbrev pub Scores : Type 0
Scores = List (String × DimensionScore)

-- `{s.dimension: s for s in scores}`
unfoldable pub scores_from : Scores → List DimensionScore → Scores
scores_from d [] = d
scores_from d (s ∷ rest) = scores_from (insert s.dimension s d) rest

abbrev pub by_dimension : AssessmentReport → Scores
unfolding scores_from
by_dimension report = scores_from [] report.scores

abbrev pub findings_in : Option DimensionScore → List Finding
findings_in none = []
findings_in (some s) = s.findings

abbrev pub score_in : Option DimensionScore → ℕ
score_in none = 0
score_in (some s) = s.score

-- The findings of a dimension in one report whose keys the other report does not have.
unfoldable pub only_in : String → List Finding → List Finding → List FindingDelta
only_in status fs others =
    map (delta_of status) (keep_if (λ (f : Finding). not (is_key others (key_of f))) fs)

unfoldable pub dimension_delta : Scores → Scores → String → DimensionDelta
unfolding only_in
dimension_delta old_scores new_scores dim =
    let old_dim = lookup dim old_scores in
    let new_dim = lookup dim new_scores in
    record {
      dimension = dim;
      old_score = score_in old_dim;
      new_score = score_in new_dim;
      new_findings = only_in "new" (findings_in new_dim) (findings_in old_dim);
      resolved_findings = only_in "resolved" (findings_in old_dim) (findings_in new_dim);
    }

abbrev pub all_new : List DimensionDelta → List FindingDelta
all_new [] = []
all_new (d ∷ ds) = d.new_findings ++ all_new ds

abbrev pub all_resolved : List DimensionDelta → List FindingDelta
all_resolved [] = []
all_resolved (d ∷ ds) = d.resolved_findings ++ all_resolved ds

abbrev pub dimensions : Scores → List String
dimensions d = map (λ (e : String × DimensionScore). e.0) d

unfoldable pub all_dims : Scores → Scores → List String
all_dims old_scores new_scores =
    sort_by (λ (dim : String). dim) (distinct (dimensions old_scores ++ dimensions new_scores))

unfoldable pub is_auto_fixable : FindingDelta → Bool
is_auto_fixable f =
    any (λ (row : String × (String × String)). contains (lower f.category) row.0) fix_registry

unfoldable pub diff_assessments : AssessmentReport → AssessmentReport → AssessmentDiff
unfolding dimension_delta all_dims is_auto_fixable by_dimension
diff_assessments old new =
    let deltas =
      map (dimension_delta (by_dimension old) (by_dimension new))
        (all_dims (by_dimension old) (by_dimension new)) in
    record {
      repo_name = new.repo_name;
      old_overall = old.overall_score;
      new_overall = new.overall_score;
      dimension_deltas = deltas;
      new_findings = all_new deltas;
      resolved_findings = all_resolved deltas;
      auto_fixable = keep_if is_auto_fixable (all_new deltas);
    }
