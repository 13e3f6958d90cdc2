-- ===== src/Pulls/Sync.antt =====
-- `sync_pr_outcomes` and `attach_pr_outcomes` of src/agentit/portal/pr_outcomes.py. The theorems stand
-- in Sync/Rows, Sync/Once and Sync/Attached.
pub mod Computed
pub mod Rows
pub mod Step
pub mod Once
pub mod Attached
use agent_it.Base.{
  String, Bool, true, false, ◌&&◌, ◌||◌, not, Option, none, some, List, [], ◌∷◌, ◌++◌, map, keep_if,
  any, str_eq, is_empty_text, if◌then◌else◌, lookup, string_eq, strip,
}
use agent_it.Store.Skills as Skills
use agent_it.Store.Skills.{record_skill_outcome}
use agent_it.Store.Feedback.{
  Feedback, record_feedback, PrOutcome, PrOutcomes, record_pr_outcome, pr_outcomes_recorded_for,
  get_pr_outcomes_for_urls,
}
use agent_it.Verify.Attribution.{record_skill_outcomes}
use agent_it.Pulls.{PrRecord, PrRecords}
use agent_it.Pulls.Outcomes.{
  Github, Db, Found, compute_outcome, attribution, outcome_rejected, outcome_edited_before_merge,
}

-- The reason that a rejection is recorded with.
abbrev pub or_closed : String → String
or_closed reason = if is_empty_text reason then "PR closed without merge" else reason

abbrev rejection : PrRecord → String → Feedback
rejection r reason = record {
  app_name = r.app_name;
  agent_name = "pr-outcome-sync";
  finding_category = r.category;
  action = "rejected";
  human_reason = reason;
  human_value = "";
}

abbrev skills_after :
    Github → PrRecord → String → String → List String → Skills.Outcomes → Skills.Outcomes
skills_after g r reason finding_category skill_names rows =
    if is_empty_text finding_category
    then record_skill_outcomes skill_names r.app_name [] "rejected" reason g.now rows
    else record_skill_outcomes [] r.app_name ((finding_category, "") ∷ []) "rejected" reason g.now
        rows

-- `_record_rejection_side_effects`
unfoldable pub record_rejection_side_effects :
    Github → PrRecord → String → String → List String → Db → Db
unfolding record_feedback record_skill_outcomes
record_rejection_side_effects g r reject_reason finding_category skill_names db =
    let reason = or_closed (strip reject_reason) in
    record db {
      feedback = record_feedback (rejection r reason) db.feedback;
      skills = skills_after g r reason (strip finding_category) skill_names db.skills;
    }

-- The row of an outcome.
abbrev pub row_of : Github → PrRecord → Found → PrOutcome
row_of g r found =
    let (finding_category, skill_names) = attribution g r in
    record {
      pr_url = r.pr_url;
      assessment_id = r.assessment_id;
      app_name = r.app_name;
      category = r.category;
      finding_category = finding_category;
      skill_names = skill_names;
      outcome = found.outcome;
      reject_reason = found.reject_reason;
      edit_diff = found.edit_diff;
    }

-- What `sync_pr_outcomes` returns of a row.
pub record Recorded : Type 0 where
  pub found : Found
  pub pr_url : String
  pub app_name : String

abbrev pub side_effects : Github → PrRecord → PrOutcome → Db → Db
side_effects g r o db =
    if str_eq o.outcome outcome_rejected
    then record_rejection_side_effects g r o.reject_reason o.finding_category o.skill_names db
    else db

abbrev pub of_insert : Github → PrRecord → Found → Bool × PrOutcomes → Db → Option Recorded × Db
of_insert g r found (false, rows) db = (none, record db { outcomes = rows })
of_insert g r found (true, rows) db = (
  some (record { found = found; pr_url = r.pr_url; app_name = r.app_name }),
  side_effects g r (row_of g r found) (record db { outcomes = rows }),
)

abbrev pub of_computed : Github → PrRecord → Option (Option Found) → Db → Option Recorded × Db
of_computed g r none db = (none, db)
of_computed g r (some none) db = (none, db)
of_computed g r (some (some found)) db =
    of_insert g r found (record_pr_outcome (row_of g r found) db.outcomes) db

-- The body of the loop of `sync_pr_outcomes`.
unfoldable pub sync_record : Github → List String → PrRecord → Db → Option Recorded × Db
unfolding compute_outcome attribution record_pr_outcome record_rejection_side_effects
sync_record g already r db =
    if any (λ (u : String). str_eq r.pr_url u) already
    then (none, db)
    else (let (computed, made) = compute_outcome g r in
        of_computed g r computed (record db { calls = made ++ db.calls }))

abbrev pub with_recorded : Option Recorded → List Recorded → List Recorded
with_recorded none rs = rs
with_recorded (some r) rs = r ∷ rs

unfoldable pub sync_each : Github → List String → PrRecords → Db → List Recorded × Db
unfolding sync_record
sync_each g already [] db = ([], db)
sync_each g already (r ∷ records) db =
    let (recorded, db1) = sync_record g already r db in
    let (rest, db2) = sync_each g already records db1 in (with_recorded recorded rest, db2)

abbrev pub is_candidate : PrRecord → Bool
is_candidate r =
    (str_eq r.state "merged" || str_eq r.state "closed") && not (is_empty_text r.pr_url)

abbrev pub candidates : PrRecords → PrRecords
candidates records = keep_if is_candidate records

abbrev pub urls_of : PrRecords → List String
urls_of records = map (λ (r : PrRecord). r.pr_url) records

unfoldable pub sync_pr_outcomes : Github → PrRecords → Db → List Recorded × Db
unfolding sync_each pr_outcomes_recorded_for
sync_pr_outcomes g records db =
    let already = pr_outcomes_recorded_for (urls_of (candidates records)) db.outcomes in
    sync_each g already (candidates records) db

abbrev pub attached : PrRecord → Option PrOutcome → PrRecord
attached r none = r
attached r (some o) = record r {
  reject_reason = o.reject_reason;
  edited_before_merge = str_eq o.outcome outcome_edited_before_merge;
  edit_diff = o.edit_diff;
}

unfoldable pub attach_pr_outcomes : PrOutcomes → PrRecords → PrRecords
unfolding get_pr_outcomes_for_urls
attach_pr_outcomes rows records =
    let has_url = λ (r : PrRecord). not (is_empty_text r.pr_url) in
    let outcomes = get_pr_outcomes_for_urls (urls_of (keep_if has_url records)) rows in
    map (λ (r : PrRecord). attached r (lookup r.pr_url outcomes)) records

-- `sync_and_attach_pr_outcomes` of src/agentit/portal/pr_tracking.py
unfoldable pub sync_and_attach_pr_outcomes : Github → PrRecords → Db → PrRecords × Db
unfolding sync_pr_outcomes attach_pr_outcomes
sync_and_attach_pr_outcomes g records db =
    let (_, after) = sync_pr_outcomes g records db in
    (attach_pr_outcomes after.outcomes records, after)
