-- ===== src/Verify/Open.antt =====
-- How many escalations of a category stand open after one more.
use agent_it.Base.{
  ℕ, ◌≤◌, ◌<◌, String, Bool, true, false, ◌||◌, Option, none, some, List, [], ◌∷◌, ◌++◌, ◌≡◌, refl,
  ap, ◌∙◌, arith, max, first_that, any, keep_if, keep_if-congr, keep_if-dropped, count_if, str_eq,
  eq_refl, is_empty_text, All, eq_iff, inl, inr, Bool-cases,
}
use agent_it.Registry.{FindingKey}
use agent_it.Store.Events.{
  Event, Events, finding_escalated, finding_escalation_resolved_actions, is_resolved_by,
  is_unresolved, newest_first, log_event, list_unresolved_events, list_unresolved_escalations,
  replies_to,
}
use agent_it.Verify.{Db, log_outcome}
use agent_it.Verify.Escalation.{
  names, open_escalation, escalate_over, escalate_unresolved_finding, escalation_summary, has_quote,
  escalation_event_category-escalation_summary,
}

-- How many escalations of the category are open.
abbrev pub open_count : String → String → Events → ℕ
open_count app category events = count_if (names category) (list_unresolved_escalations app events)

-- No reply is to an event that is still to come.
abbrev pub IsBefore : ℕ → Option ℕ → Type 0
IsBefore fresh none = Unit
IsBefore fresh (some i) = i < fresh

abbrev pub AreBefore : Db → Type 0
AreBefore db = All (λ (e : Event). IsBefore db.fresh e.correlation_id) db.events

module _ {A : Type 0} where
  newest_first-append : (xs : List A) (x : A) → newest_first (xs ++ x ∷ []) ≡ x ∷ newest_first xs
  newest_first-append [] x = refl
  newest_first-append (y ∷ xs) x = ap (λ (l : List A). l ++ y ∷ []) (newest_first-append xs x)

  keep_if-kept :
      (p : A → Bool) (xs : List A) (x : A)
      → p x ≡ true
      → keep_if p (xs ++ x ∷ []) ≡ keep_if p xs ++ x ∷ []
  keep_if-kept p [] x h = rw h refl
  keep_if-kept p (y ∷ xs) x h = elim (Bool-cases (p y)) [
    | inl kept ↦ rw (kept, keep_if-kept p xs x h) refl
    | inr gone ↦ rw (gone, keep_if-kept p xs x h) refl
  ]

  any-append_none :
      (p : A → Bool) (xs : List A) (x : A) → p x ≡ false → any p (xs ++ x ∷ []) ≡ any p xs
  any-append_none p [] x h = rw h refl
  any-append_none p (y ∷ xs) x h = ap (λ (b : Bool). p y || b) (any-append_none p xs x h)

  first_that-count : (p : A → Bool) (xs : List A) → first_that p xs ≡ none → count_if p xs ≡ 0
  first_that-count p [] h = refl
  first_that-count p (x ∷ xs) h = ground (arith, first_that-count p xs)

  first_that-some :
      (p : A → Bool) (xs : List A) (x : A) → first_that p xs ≡ some x → 1 ≤ count_if p xs
  first_that-some p [] x h = absurd (cc)
  first_that-some p (y ∷ xs) x h = ground (arith, first_that-some p xs x)

unanswered :
    (fresh : ℕ) (actions : List String) (events : Events)
    → All (λ (e : Event). IsBefore fresh e.correlation_id) events
    → any (is_resolved_by actions fresh) events ≡ false
unanswered fresh actions [] h = refl
unanswered fresh actions (e ∷ events) (h, hs) =
    rw (other e.correlation_id h, unanswered fresh actions events hs) refl
  where
    other : (o : Option ℕ) → IsBefore fresh o → replies_to fresh o ≡ false
    other none h = refl
    other (some i) h = ground arith

-- The event of an escalation.
abbrev escalation_event : String → FindingKey → ℕ → ℕ → Event
escalation_event app finding failure_count id = record {
  id = id;
  action = finding_escalated;
  target_app = app;
  severity = "critical";
  summary = escalation_summary finding failure_count;
  correlation_id = none;
}

list_unresolved-log :
    (app : String) (finding : FindingKey) (failure_count : ℕ) (db : Db)
    → AreBefore db
    → list_unresolved_escalations app
        (db.events ++ escalation_event app finding failure_count db.fresh ∷ [])
      ≡ escalation_event app finding failure_count db.fresh
        ∷ list_unresolved_escalations app db.events
unfolding list_unresolved_escalations list_unresolved_events
list_unresolved-log app finding failure_count db before =
    let new = escalation_event app finding failure_count db.fresh in
    let answers = finding_escalation_resolved_actions in
    ap newest_first (
      keep_if-kept (is_unresolved finding_escalated answers app (db.events ++ new ∷ [])) db.events
        new
        (rw
          (
            any-append_none (is_resolved_by answers db.fresh) db.events new refl,
            unanswered db.fresh answers db.events before,
            eq_refl app,
          )
          refl)
      ∙ ap (λ (l : Events). l ++ new ∷ [])
          (keep_if-congr _ (is_unresolved finding_escalated answers app db.events)
            (λ e. rw (any-append_none (is_resolved_by answers e.id) db.events new refl) refl)
            db.events))
    ∙ newest_first-append
        (keep_if (is_unresolved finding_escalated answers app db.events) db.events) new

over-IsOne :
    (app : String) (finding : FindingKey) (failure_count : ℕ) (db : Db) (o : Option Event)
    → is_empty_text finding.0 ≡ false
    → has_quote finding.0 ≡ false
    → AreBefore db
    → open_escalation app finding.0 db.events ≡ o
    → open_count app finding.0 (escalate_over o app finding failure_count db).1.events
      ≡ max 1 (open_count app finding.0 db.events)
unfolding log_outcome log_event
over-IsOne app finding failure_count db (some e) named h before found =
    omega
      (arith, first_that-some (names finding.0) (list_unresolved_escalations app db.events) e found)
over-IsOne app finding failure_count db none named h before found =
    rw
      (
        list_unresolved-log app finding failure_count db before,
        (eq_iff _ _).1 (escalation_event_category-escalation_summary finding failure_count named h),
      )
      (omega (
        arith,
        first_that-count (names finding.0) (list_unresolved_escalations app db.events) found,
      ))

-- An escalation leaves exactly one open event of its category where none was open, and adds none
-- where one or more were: for a category that is not empty and has no quote, and replies that are
-- to events already there.
pub escalate_unresolved_finding-open_count :
    (app : String) (finding : FindingKey) (failure_count : ℕ) (db : Db)
    → is_empty_text finding.0 ≡ false
    → has_quote finding.0 ≡ false
    → AreBefore db
    → open_count app finding.0 (escalate_unresolved_finding app finding failure_count db).1.events
      ≡ max 1 (open_count app finding.0 db.events)
unfolding escalate_unresolved_finding
escalate_unresolved_finding-open_count app finding failure_count db named h before =
    over-IsOne app finding failure_count db (open_escalation app finding.0 db.events) named h before
      refl

-- Any other event leaves the open escalations as they are.
pub list_unresolved-log_outcome :
    (app action severity summary : String) (db : Db)
    → str_eq action finding_escalated ≡ false
    → list_unresolved_escalations app (log_outcome app action severity summary db).1.events
      ≡ list_unresolved_escalations app db.events
unfolding list_unresolved_escalations list_unresolved_events log_outcome log_event
list_unresolved-log_outcome app action severity summary db other =
    let new : Event = record {
      id = db.fresh;
      action = action;
      target_app = app;
      severity = severity;
      summary = summary;
      correlation_id = none;
    } in
    let answers = finding_escalation_resolved_actions in
    ap newest_first (
      keep_if-dropped (is_unresolved finding_escalated answers app (db.events ++ new ∷ [])) new
        db.events (rw other refl)
      ∙ keep_if-congr (is_unresolved finding_escalated answers app (db.events ++ new ∷ []))
          (is_unresolved finding_escalated answers app db.events)
          (λ e. rw (any-append_none (is_resolved_by answers e.id) db.events new refl) refl)
          db.events)

over-deliveries :
    (app : String) (finding : FindingKey) (failure_count : ℕ) (db : Db) (o : Option Event)
    → (escalate_over o app finding failure_count db).1.deliveries ≡ db.deliveries
unfolding log_outcome
over-deliveries app finding failure_count db none = refl
over-deliveries app finding failure_count db (some e) = refl

pub escalate_unresolved_finding-deliveries :
    (app : String) (finding : FindingKey) (failure_count : ℕ) (db : Db)
    → (escalate_unresolved_finding app finding failure_count db).1.deliveries ≡ db.deliveries
unfolding escalate_unresolved_finding
escalate_unresolved_finding-deliveries app finding failure_count db =
    over-deliveries app finding failure_count db (open_escalation app finding.0 db.events)
