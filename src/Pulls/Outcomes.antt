-- ===== src/Pulls/Outcomes.antt =====
-- src/agentit/portal/pr_outcomes.py: what became of each pull request is recorded once. Pulls/Sync
-- records it.
use Prim.Native.String.{len}
use text.Mathlib.Text.{starts_with}
use agent_it.Base.{
  ℕ, ◌-◌, String, Bool, ◌&&◌, not, Option, none, some, List, [], ◌∷◌, ◌++◌, str_eq, is_empty,
  is_empty_text, if◌then◌else◌, string_eq, lower, replace_char, ltb, prefix, ◌++ₛ◌,
}
use agent_it.Registry.{FindingKey}
use agent_it.Registry.Lines.{distinct}
use agent_it.Store.Skills as Skills
use agent_it.Store.Skills.{record_skill_outcome}
use agent_it.Store.Feedback.{Feedbacks, Commit, PrOutcomes}
use agent_it.Verify.Attribution.{skill_names_for_findings}
use agent_it.Pulls.{PrRecord}
use agent_it.Pulls.Reasons.{parse_reject_reason, drop_text}

-- The labels and the body of a pull request.
pub record PrStatus : Type 0 where
  pub labels : List String
  pub body : String

-- The calls that ask GitHub, and the store for the onboarding files (category and path) of an
-- assessment. A call that raises is `none`; a read that raises gives no files.
pub record Github : Type 0 where
  pub get_extra_commits : String → Option (List Commit)
  pub get_status : String → Option PrStatus
  pub get_comments : String → Option (List String)
  pub get_onboarding : String → List (String × String)
  pub now : ℕ

pub data GithubCall : Type 0 where
  commits_after_first : String → GithubCall
  pr_status : String → GithubCall
  close_comments : String → GithubCall

-- The tables, and the calls to GitHub so far, newest first.
pub record Db : Type 0 where
  pub outcomes : PrOutcomes
  pub feedback : Feedbacks
  pub skills : Skills.Outcomes
  pub calls : List GithubCall

abbrev pub outcome_rejected : String
outcome_rejected = "rejected"

abbrev pub outcome_edited_before_merge : String
outcome_edited_before_merge = "edited_before_merge"

abbrev pub outcome_merged : String
outcome_merged = "merged"

-- The outcome that is computed for a record.
pub record Found : Type 0 where
  pub outcome : String
  pub reject_reason : String
  pub edit_diff : List Commit

-- `skill_name_from_path` of src/agentit/skill_engine.py
abbrev ends_with : String → String → Bool
ends_with s t = str_eq (drop_text (len s - len t) s) t

abbrev stem_of : String → String
stem_of path =
    if ends_with path ".yaml"
    then prefix (len path - 5) path
    else if ends_with path ".yml"
    then prefix (len path - 4) path
    else path

unfoldable pub skill_name_from_path : String → String → Option String
skill_name_from_path path app =
    let start = app ++ₛ "-" in
    let stem = stem_of path in
    if starts_with stem start && ltb (len start) (len stem)
    then some (drop_text (len start) stem)
    else none

abbrev pub targets_of : PrRecord → List FindingKey
targets_of r = if is_empty r.target_findings then r.raw_target_findings else r.target_findings

abbrev first_category : List FindingKey → String
first_category [] = ""
first_category (k ∷ keys) = k.0

abbrev sanitized : String → String
sanitized app = replace_char "." "-" (replace_char "_" "-" (lower app))

abbrev name_of_file : String → String × String → List String
name_of_file app (category, path) =
    if str_eq category "skills"
    then elim (skill_name_from_path path app) [ none ↦ [] | some name ↦ name ∷ [] ]
    else []

abbrev names_of_files : String → List (String × String) → List String
names_of_files app [] = []
names_of_files app (f ∷ files) = name_of_file app f ++ names_of_files app files

abbrev files_of : Github → Option String → List (String × String)
files_of g none = []
files_of g (some assessment_id) =
    if is_empty_text assessment_id then [] else g.get_onboarding assessment_id

-- `_attribution`
unfoldable pub attribution : Github → PrRecord → String × List String
unfolding skill_names_for_findings skill_name_from_path
attribution g r =
    let targets = targets_of r in
    if not (is_empty targets)
    then (first_category targets, skill_names_for_findings targets)
    else if str_eq r.category "source_patch"
    then ("", [])
    else ("", distinct (names_of_files (sanitized r.app_name) (files_of g r.assessment_id)))

abbrev pub merge_outcome : List Commit → Found
merge_outcome commits = record {
  outcome = if is_empty commits then outcome_merged else outcome_edited_before_merge;
  reject_reason = "";
  edit_diff = commits;
}

abbrev pub close_outcome : PrStatus → List String → Found
close_outcome s texts = record {
  outcome = outcome_rejected;
  reject_reason = parse_reject_reason s.labels s.body texts;
  edit_diff = [];
}

abbrev pub of_merged : String → Option (List Commit) → Option (Option Found) × List GithubCall
of_merged pr_url none = (none, commits_after_first pr_url ∷ [])
of_merged pr_url (some commits) =
    (some (some (merge_outcome commits)), commits_after_first pr_url ∷ [])

abbrev pub of_comments :
    String → PrStatus → Option (List String) → Option (Option Found) × List GithubCall
of_comments pr_url s none = (none, close_comments pr_url ∷ pr_status pr_url ∷ [])
of_comments pr_url s (some texts) =
    (some (some (close_outcome s texts)), close_comments pr_url ∷ pr_status pr_url ∷ [])

abbrev pub of_status : Github → String → Option PrStatus → Option (Option Found) × List GithubCall
of_status g pr_url none = (none, pr_status pr_url ∷ [])
of_status g pr_url (some s) = of_comments pr_url s (g.get_comments pr_url)

-- `_compute_outcome`, with its calls: `none` where a call raises, `some none` for nothing to record.
unfoldable pub compute_outcome : Github → PrRecord → Option (Option Found) × List GithubCall
compute_outcome g r =
    if str_eq r.state "merged"
    then of_merged r.pr_url (g.get_extra_commits r.pr_url)
    else if str_eq r.state "closed"
    then of_status g r.pr_url (g.get_status r.pr_url)
    else (some none, [])
