-- ===== src/Store/Events.antt =====
-- The table `events` of portal/store/events.py, and the unresolved events of portal/pending_actions.py.
use agent_it.Base.{
  ℕ, String, Bool, false, ◌&&◌, not, Option, none, some, List, [], ◌∷◌, ◌++◌, ◌==◌, any, keep_if,
  str_eq,
}

pub record Event : Type 0 where
  pub id : ℕ
  pub action : String
  pub target_app : String
  pub severity : String
  pub summary : String
  pub correlation_id : Option ℕ

abbrev pub Events : Type 0
Events = List Event

unfoldable pub log_event : ℕ → String → String → String → String → Option ℕ → Events → Events
log_event id action app severity summary correlation_id events =
    events
    ++ (record {
      id = id;
      action = action;
      target_app = app;
      severity = severity;
      summary = summary;
      correlation_id = correlation_id;
    }
        ∷ [])

abbrev pub replies_to : ℕ → Option ℕ → Bool
replies_to id none = false
replies_to id (some i) = i == id

abbrev pub is_resolved_by : List String → ℕ → Event → Bool
is_resolved_by resolved_actions id e =
    replies_to id e.correlation_id && any (λ (a : String). str_eq e.action a) resolved_actions

-- `ORDER BY timestamp DESC`
abbrev pub newest_first : {A : Type 0} → List A → List A
newest_first [] = []
newest_first (x ∷ xs) = newest_first xs ++ x ∷ []

abbrev pub is_unresolved : String → List String → String → Events → Event → Bool
is_unresolved action resolved_actions app events e =
    str_eq e.action action
    && not (any (is_resolved_by resolved_actions e.id) events)
    && str_eq e.target_app app

unfoldable pub list_unresolved_events : String → List String → String → Events → Events
list_unresolved_events action resolved_actions app events =
    newest_first (keep_if (is_unresolved action resolved_actions app events) events)

abbrev pub finding_escalated : String
finding_escalated = "finding-escalated"

abbrev pub finding_escalation_resolved_actions : List String
finding_escalation_resolved_actions = "finding-escalation-acknowledged" ∷ []

unfoldable pub list_unresolved_escalations : String → Events → Events
unfolding list_unresolved_events
list_unresolved_escalations app events =
    list_unresolved_events finding_escalated finding_escalation_resolved_actions app events
