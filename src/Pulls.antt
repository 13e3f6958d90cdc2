-- ===== src/Pulls.antt =====
-- The pull requests of an application: the records of src/agentit/portal/pr_tracking.py, and what
-- became of each pull request (Pulls/Outcomes, Pulls/Sync, Pulls/Reasons).
pub mod Reasons
pub mod Outcomes
pub mod Sync
use agent_it.Base.{
  ℕ, String, Bool, true, false, not, Option, none, some, List, [], ◌∷◌, keep_if, str_eq,
  is_empty_text, if◌then◌else◌,
}
use agent_it.Registry.{FindingKey}
use agent_it.Store.Feedback.{Commit}

pub data Lifecycle : Type 0 where
  needs_approval : Lifecycle
  merged : Lifecycle
  rejected : Lifecycle
  closed : Lifecycle
  unknown : Lifecycle

-- A record of a pull request; its state is the one on GitHub. A key that is missing is empty.
pub record PrRecord : Type 0 where
  pub pr_url : String
  pub category : String
  pub assessment_id : Option String
  pub app_name : String
  pub target_findings : List FindingKey
  pub raw_target_findings : List FindingKey
  pub state : String
  pub reject_reason : String
  pub edited_before_merge : Bool
  pub edit_diff : List Commit
  pub lifecycle : Option Lifecycle
  pub needs_attention : Bool

abbrev pub PrRecords : Type 0
PrRecords = List PrRecord

-- The first record of each URL.
unfoldable pub dedup_by_pr_url : PrRecords → PrRecords
dedup_by_pr_url [] = []
dedup_by_pr_url (r ∷ records) =
    r ∷ keep_if (λ (s : PrRecord). not (str_eq s.pr_url r.pr_url)) (dedup_by_pr_url records)

abbrev lifecycle_of : PrRecord → Lifecycle
lifecycle_of r =
    if str_eq r.state "open"
    then needs_approval
    else if str_eq r.state "merged"
    then merged
    else if str_eq r.state "closed"
    then if is_empty_text r.reject_reason then closed else rejected
    else unknown

abbrev is_needs_approval : Lifecycle → Bool
is_needs_approval needs_approval = true
is_needs_approval _ = false

unfoldable pub annotate_lifecycle : PrRecord → PrRecord
annotate_lifecycle r = record r {
  lifecycle = some (lifecycle_of r);
  needs_attention = is_needs_approval (lifecycle_of r);
}

unfoldable pub fleet_prs_waiting_for_approval : PrRecords → PrRecords
fleet_prs_waiting_for_approval records = keep_if (λ (r : PrRecord). str_eq r.state "open") records
