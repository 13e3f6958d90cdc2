-- ===== src/Verify/NextAction.antt =====
-- `get_next_action_state`: what happens next for an application. The theorem stands in
-- NextAction/Meaning.
mod Worst
pub mod Meaning
use agent_it.Base.{
  ℕ, ◌≤◌, ◌<◌, String, Bool, true, false, not, ◌&&◌, is_empty, is_some, subst, In-of_keep_if,
  In-append_left, Option, none, some, List, [], ◌∷◌, ◌++◌, ◌≡◌, inl, inr, refl, sym, ap, ◌∙◌, arith,
  first_that, first_that-In, ltb, ltb→lt, get_or, str_eq, is_empty_text, if◌then◌else◌, In, All,
  Bool-cases,
}
use agent_it.Registry.{FindingKey}
use agent_it.Store.Deliveries.{
  Delivery, is_pending, Deliveries, list_deliveries_pending_finding_check,
  get_finding_failure_count,
}
use agent_it.Store.Events.{Event, Events, list_unresolved_escalations}
use agent_it.Verify.{Db}
use agent_it.Verify.Escalation.{escalation_event_category}

-- The states with what they tell. The labels and messages are texts made of these.
pub data NextAction : Type 0 where
  escalated : String → ℕ → Option String → NextAction
  retrying : String → ℕ → NextAction
  pending_verification : String → NextAction
  nothing : NextAction

-- The targets of the deliveries that wait, in their order.
abbrev pub targeted : Deliveries → List FindingKey
targeted [] = []
targeted (d ∷ rows) = d.target_findings ++ targeted rows

-- A later category replaces the worst one only with a greater count; the source starts from -1.
abbrev pub worse : (String → ℕ) → FindingKey → Option (String × ℕ) → Option (String × ℕ)
worse count k none = some (k.0, count k.0)
worse count k (some (c, n)) = if ltb n (count k.0) then some (k.0, count k.0) else some (c, n)

abbrev pub worst_from : (String → ℕ) → Option (String × ℕ) → List FindingKey → Option (String × ℕ)
worst_from count worst [] = worst
worst_from count worst (k ∷ keys) = worst_from count (worse count k worst) keys

abbrev pub of_worst : Option (String × ℕ) → String → NextAction
of_worst none repo_label = pending_verification repo_label
of_worst (some (c, n)) repo_label =
    if ltb 0 n then retrying c n else pending_verification repo_label

abbrev pub of_pending : String → Deliveries → String → Db → NextAction
of_pending app [] repo_label db = nothing
of_pending app (d ∷ rows) repo_label db =
    of_worst
      (worst_from (λ (c : String). get_finding_failure_count app c db.deliveries) none
        (targeted (d ∷ rows)))
      repo_label

abbrev pub of_escalation : Option Event → String → String → Option String → Db → NextAction
of_escalation (some e) app repo_label assessment_id db =
    escalated (escalation_event_category e.summary) e.id assessment_id
of_escalation none app repo_label assessment_id db =
    of_pending app (list_deliveries_pending_finding_check app db.deliveries) repo_label db

-- The escalations of the application, of a list that was fetched before or of its own.
unfoldable pub escalation_of : String → Option Events → Db → Option Event
escalation_of app unresolved_escalations db =
    first_that (λ (e : Event). str_eq e.target_app app)
      (get_or (list_unresolved_escalations app db.events) unresolved_escalations)

-- `repo_url or app_name`
abbrev pub repo_or : String → Option String → String
repo_or app none = app
repo_or app (some repo_url) = if is_empty_text repo_url then app else repo_url

unfoldable pub get_next_action_state :
    String → Option String → Option String → Option Events → Db → NextAction
unfolding escalation_of
get_next_action_state app repo_url assessment_id unresolved_escalations db =
    of_escalation (escalation_of app unresolved_escalations db) app (repo_or app repo_url)
      assessment_id db
