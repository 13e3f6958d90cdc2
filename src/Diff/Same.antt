-- ===== src/Diff/Same.antt =====
-- The comparison of a report with itself.
use agent_it.Base.{
  ℕ, ◌+◌, true, false, List, [], ◌∷◌, ◌≡◌, refl, ap, arith, In, In-any, keep_if, ltb, inl, lookup,
}
use agent_it.Diff.{
  Finding, AssessmentReport, key_of, finding_key_eq, is_key, FindingDelta, Scores, by_dimension,
  findings_in, diff_assessments, is_improved, is_degraded, AssessmentDiff, is_auto_fixable,
}
use agent_it.Diff.Findings.{IsMoved, diff_assessments-IsMoved}

no_member : (ds : List FindingDelta) → ((d : FindingDelta) → In d ds → ⊥) → ds ≡ []
no_member [] h = refl
no_member (d ∷ ds) h = absurd (h d (inl refl))

-- A finding of a report has its key in the report.
is_key_own : (fs : List Finding) (f : Finding) → In f fs → is_key fs (key_of f) ≡ true
is_key_own fs f m =
    In-any (λ (g : Finding). finding_key_eq.beq (key_of g) (key_of f)) f fs m
      ((finding_key_eq.beq_iff (key_of f) (key_of f)).1 refl)

new_absent : (here : Scores) (d : FindingDelta) → IsMoved "new" here here d → ⊥
new_absent here d (dim, (f, m, gone, e)) = cc (is_key_own (findings_in (lookup dim here)) f m, gone)

resolved_absent : (here : Scores) (d : FindingDelta) → IsMoved "resolved" here here d → ⊥
resolved_absent here d (dim, (f, m, gone, e)) =
    cc (is_key_own (findings_in (lookup dim here)) f m, gone)

not_more : (n : ℕ) → ltb (n + 5000) n ≡ false
not_more n = ground arith

pub record IsUnchanged (d : AssessmentDiff) : Type 0 where
  new_findings : d.new_findings ≡ []
  resolved_findings : d.resolved_findings ≡ []
  auto_fixable : d.auto_fixable ≡ []
  stable : (is_improved d ≡ false) × (is_degraded d ≡ false)

-- A report compared with itself has no new, no resolved and no auto-fixable finding, and is neither
-- improved nor degraded.
pub diff_assessments-IsUnchanged :
    (report : AssessmentReport) → IsUnchanged (diff_assessments report report)
unfolding diff_assessments is_improved is_degraded
diff_assessments-IsUnchanged report =
    let same = λ (d : FindingDelta). diff_assessments-IsMoved report report d in
    let no_new = no_member _ (λ d m. new_absent (by_dimension report) d ((same d).0.0 m)) in
    record {
      new_findings = no_new;
      resolved_findings =
          no_member _ (λ d m. resolved_absent (by_dimension report) d ((same d).1.0 m));
      auto_fixable = ap (keep_if is_auto_fixable) no_new;
      stable = (not_more report.overall_score, not_more report.overall_score);
    }
