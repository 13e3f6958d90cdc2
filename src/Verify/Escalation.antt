-- ===== src/Verify/Escalation.antt =====
-- `escalate_unresolved_finding`, and the category that its event's summary carries.
use agent_it.Base.{
  ℕ, String, code, Bool, false, ◌||◌, Option, none, some, ◌≡◌, refl, ap, ◌∙◌, arith, ◌==◌,
  first_that, if◌then◌else◌, ◌++ₛ◌, show, str_eq, is_empty_text,
}
use text.Mathlib.TextLemmas.{nil-append, cons-append}
use agent_it.Registry.{FindingKey}
use agent_it.Store.Events.{Event, Events, finding_escalated, list_unresolved_escalations}
use agent_it.Verify.{Db, log_outcome}

-- The text before the next quote, for `([^']+)'`.
unfoldable pub quoted : String → Option String
quoted String.[] = none
quoted (String.◌∷◌ c s) =
    let rest = quoted s in
    if code c == 39 then some "" else (elim rest [ none ↦ none | some t ↦ some (String.◌∷◌ c t) ])

abbrev pub or_finding : Option String → String
or_finding none = "finding"
or_finding (some String.[]) = "finding"
or_finding (some (String.◌∷◌ c s)) = String.◌∷◌ c s

unfoldable pub escalation_event_category : String → String
unfolding quoted
escalation_event_category String.[] = "finding"
escalation_event_category (String.◌∷◌ c s) =
    if code c == 39 then or_finding (quoted s) else "finding"

abbrev after_category : FindingKey → ℕ → String
after_category finding failure_count =
    "' finding has failed to resolve after "
    ++ₛ show failure_count
    ++ₛ " automated fix attempt(s) -- human review needed. Target finding: "
    ++ₛ finding.1

unfoldable pub escalation_summary : FindingKey → ℕ → String
escalation_summary finding failure_count =
    "'"
    ++ₛ finding.0
    ++ₛ "' finding has failed to resolve after "
    ++ₛ show failure_count
    ++ₛ " automated fix attempt(s) -- human review needed. Target finding: "
    ++ₛ finding.1

abbrev pub names : String → Event → Bool
names category e = str_eq (escalation_event_category e.summary) category

-- The escalation of this category that no person has acknowledged.
abbrev pub open_escalation : String → String → Events → Option Event
open_escalation app category events =
    first_that (names category) (list_unresolved_escalations app events)

abbrev pub escalate_over : Option Event → String → FindingKey → ℕ → Db → ℕ × Db
escalate_over (some e) app finding failure_count db = (e.id, db)
escalate_over none app finding failure_count db =
    log_outcome app finding_escalated "critical" (escalation_summary finding failure_count) db

unfoldable pub escalate_unresolved_finding : String → FindingKey → ℕ → Db → ℕ × Db
escalate_unresolved_finding app finding failure_count db =
    escalate_over (open_escalation app finding.0 db.events) app finding failure_count db

abbrev pub has_quote : String → Bool
has_quote String.[] = false
has_quote (String.◌∷◌ c s) = code c == 39 || has_quote s

quoted-append :
    (s t : String) → has_quote s ≡ false → quoted t ≡ some "" → quoted (s ++ₛ t) ≡ some s
unfolding quoted
quoted-append String.[] t h e = ap quoted (nil-append t) ∙ e
quoted-append (String.◌∷◌ c s) t h e =
    rw
      (
        cons-append c s t,
        (parts (code c == 39) (has_quote s) h).0,
        quoted-append s t ((parts (code c == 39) (has_quote s) h).1) e,
      )
      refl
  where
    parts : (b d : Bool) → (b || d) ≡ false → (b ≡ false) × (d ≡ false)
    parts b d g = ground arith

quoted-quote : (s : String) → quoted ("' finding has failed to resolve after " ++ₛ s) ≡ some ""
unfolding quoted
quoted-quote s = ap quoted (cons-append "'" " finding has failed to resolve after " s)

named_text : (s : String) → is_empty_text s ≡ false → or_finding (some s) ≡ s
named_text String.[] h = absurd (cc)
named_text (String.◌∷◌ c s) h = refl

-- The category is recovered from the summary of its escalation, where it is not empty and has no quote.
pub escalation_event_category-escalation_summary :
    (finding : FindingKey) (failure_count : ℕ)
    → is_empty_text finding.0 ≡ false
    → has_quote finding.0 ≡ false
    → escalation_event_category (escalation_summary finding failure_count) ≡ finding.0
unfolding escalation_event_category escalation_summary quoted
escalation_event_category-escalation_summary finding failure_count named h =
    ap escalation_event_category (
      cons-append "'" "" (finding.0 ++ₛ after_category finding failure_count)
      ∙ ap (λ (t : String). String.◌∷◌ "'" t) (nil-append _))
    ∙ (ap or_finding (
          quoted-append finding.0 (after_category finding failure_count) h (
            quoted-quote (
              show failure_count
              ++ₛ " automated fix attempt(s) -- human review needed. Target finding: "
              ++ₛ finding.1)))
        ∙ named_text finding.0 named)
