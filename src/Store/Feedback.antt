-- ===== src/Store/Feedback.antt =====
-- The tables `agent_feedback` and `pr_outcomes` of portal/store/feedback.py.
use agent_it.Base.{
  ℕ, String, Bool, ◌&&◌, not, Option, none, some, List, [], ◌∷◌, ◌++◌, any, keep_if, count_if, map,
  first_that, str_eq, is_empty_text, if◌then◌else◌, insert, string_eq,
}
use agent_it.Store.Events.{newest_first}

pub record Feedback : Type 0 where
  pub app_name : String
  pub agent_name : String
  pub finding_category : String
  pub action : String
  pub human_reason : String
  pub human_value : String

abbrev pub Feedbacks : Type 0
Feedbacks = List Feedback

unfoldable pub record_feedback : Feedback → Feedbacks → Feedbacks
record_feedback f rows = rows ++ f ∷ []

abbrev pub is_rejection : String → String → Feedback → Bool
is_rejection app category f =
    str_eq f.app_name app && str_eq f.finding_category category && str_eq f.action "rejected"

unfoldable pub get_rejection_count : String → String → Feedbacks → ℕ
get_rejection_count app category rows = count_if (is_rejection app category) rows

abbrev is_override : String → String → Feedback → Bool
is_override app category f =
    str_eq f.app_name app
    && str_eq f.finding_category category
    && str_eq f.action "modified"
    && not (is_empty_text f.human_value)

-- `ORDER BY created_at DESC LIMIT 1`
unfoldable pub get_human_override : String → String → Feedbacks → Option String
get_human_override app category rows =
    elim (first_that (is_override app category) (newest_first rows)) [
      | none ↦ none
      | some f ↦ some f.human_value
    ]

-- The diff of one commit that a human pushed.
pub record Commit : Type 0 where
  pub sha : String
  pub message : String
  pub author : String
  pub files : List (String × String)

pub record PrOutcome : Type 0 where
  pub pr_url : String
  pub assessment_id : Option String
  pub app_name : String
  pub category : String
  pub finding_category : String
  pub skill_names : List String
  pub outcome : String
  pub reject_reason : String
  pub edit_diff : List Commit

abbrev pub PrOutcomes : Type 0
PrOutcomes = List PrOutcome

abbrev pub is_for : String → PrOutcome → Bool
is_for pr_url o = str_eq o.pr_url pr_url

-- `ON CONFLICT (pr_url) DO NOTHING RETURNING id`: the flag says that the row is new.
unfoldable pub record_pr_outcome : PrOutcome → PrOutcomes → Bool × PrOutcomes
record_pr_outcome o rows =
    let known = any (is_for o.pr_url) rows in (not known, if known then rows else rows ++ o ∷ [])

unfoldable pub get_pr_outcome : String → PrOutcomes → Option PrOutcome
get_pr_outcome pr_url rows = first_that (is_for pr_url) rows

abbrev pub is_one_of : List String → PrOutcome → Bool
is_one_of pr_urls o = any (λ (u : String). str_eq o.pr_url u) pr_urls

-- Which of the URLs have a row, as a set.
unfoldable pub pr_outcomes_recorded_for : List String → PrOutcomes → List String
pr_outcomes_recorded_for pr_urls rows =
    map (λ (o : PrOutcome). o.pr_url) (keep_if (is_one_of pr_urls) rows)

abbrev pub by_url : PrOutcomes → List (String × PrOutcome) → List (String × PrOutcome)
by_url [] outcomes = outcomes
by_url (o ∷ rows) outcomes = by_url rows (insert o.pr_url o outcomes)

unfoldable pub get_pr_outcomes_for_urls : List String → PrOutcomes → List (String × PrOutcome)
get_pr_outcomes_for_urls pr_urls rows = by_url (keep_if (is_one_of pr_urls) rows) []
