-- ===== src/Examples/Verify.antt =====
-- Deliveries that wait for an assessment in src/agentit/portal/delivery.py.
use agent_it.Base.{
  ℕ, ◌+◌, ◌≤◌, ◌<◌, String, Bool, true, false, max, some, none, List, [], ◌∷◌, ◌≡◌, refl, arith,
  inl, inr, All,
}
use agent_it.Registry.{FindingKey}
use agent_it.Diff.{AssessmentReport, Finding, DimensionScore}
use agent_it.Delivery.Route.{refused, Result, ok, raised, in_progress}
use agent_it.Store.Deliveries.{Delivery, is_pending}
use agent_it.Verify.{Db}
use agent_it.Verify.Escalation.{
  escalation_event_category, escalation_summary, escalation_event_category-escalation_summary,
  escalate_unresolved_finding,
}
use agent_it.Verify.Open.{open_count, escalate_unresolved_finding-open_count}
use agent_it.Verify.Correlate.{IsSplit, correlate_delivery_finding-IsSplit}
use agent_it.Verify.Dispatch.{Outside}
use agent_it.Verify.Recheck.{Checked, check_delivery, check_pending_delivery_verifications}
use agent_it.Verify.Stops.{IsEscalated, handle_confirmed_finding_failure-IsEscalated}
use agent_it.Verify.Settled.{IsSettled}
use agent_it.Verify.Once.{check_delivery-settles, check_pending_delivery_verifications-settles}
use agent_it.Store.Deliveries.{get_finding_failure_count}
use agent_it.Verify.Failures.Bound.{
  IsWithin, refixed_in, check_pending_delivery_verifications-IsWithin,
}
use agent_it.Verify.NextAction.{get_next_action_state}
use agent_it.Verify.NextAction.Meaning.{IsNext, get_next_action_state-IsNext}
use agent_it.Examples.{tools, batch}

abbrev policy_finding : FindingKey
policy_finding = ("network_policy", "no network policy")

abbrev probes_finding : FindingKey
probes_finding = ("health_probes", "no probes")

escalation_event_category-escalation_summary_example :
    escalation_event_category (escalation_summary policy_finding 3) ≡ "network_policy"
escalation_event_category-escalation_summary_example =
    escalation_event_category-escalation_summary policy_finding 3 refl refl

abbrev waiting : ℕ → Delivery
waiting id = record {
  id = id;
  app_name = "shop";
  status = "delivered";
  target_findings = policy_finding ∷ probes_finding ∷ [];
  finding_resolution = none;
  opened_pr = true;
}

abbrev failed_before : ℕ → Delivery
failed_before id = record {
  id = id;
  app_name = "shop";
  status = "delivered";
  target_findings = policy_finding ∷ [];
  finding_resolution = some "still_present";
  opened_pr = true;
}

abbrev tables : Db
tables = record {
  fresh = 9;
  deliveries = failed_before 1 ∷ failed_before 2 ∷ failed_before 3 ∷ waiting 4 ∷ [];
  events = [];
  skills = [];
  locks = [];
}

escalate_unresolved_finding-open_count_example :
    open_count "shop" "network_policy"
      (escalate_unresolved_finding "shop" policy_finding 3 tables).1.events
    ≡ max 1 (open_count "shop" "network_policy" [])
escalate_unresolved_finding-open_count_example =
    escalate_unresolved_finding-open_count "shop" policy_finding 3 tables refl refl tt

abbrev assessment : AssessmentReport
assessment = record {
  repo_name = "shop";
  scores =
      record {
        dimension = "security";
        score = 60;
        findings =
            record {
              category = "network_policy";
              description = "No network policy";
              severity = "high";
            }
            ∷ [];
      }
      ∷ [];
  overall_score = 60000;
}

correlate_delivery_finding-IsSplit_example :
    IsSplit (policy_finding ∷ probes_finding ∷ []) assessment
correlate_delivery_finding-IsSplit_example =
    correlate_delivery_finding-IsSplit policy_finding (probes_finding ∷ []) assessment

-- The skills generate a batch of files for every category.
abbrev outside : Outside
outside = record {
  assessment_id = "a-1";
  repo_name = "shop";
  has_assessment = true;
  generate = λ category. record { files = batch; agent = "security"; error = none };
  world = record {
    tools = tools;
    path_name = λ path. path;
    infra_repo_url = some "infra";
    self_managed = false;
    has_report = true;
    claimed = false;
    fails = λ s. false;
    outcome = λ c. refused "push rejected";
  };
  now = 5000000;
  now_seconds = 5;
}

three_failures :
    3
    ≤ agent_it.Store.Deliveries.get_finding_failure_count "shop" "network_policy" tables.deliveries
unfolding agent_it.Store.Deliveries.get_finding_failure_count
three_failures = omega arith

handle_confirmed_finding_failure-IsEscalated_example :
    IsEscalated outside "shop" policy_finding tables
handle_confirmed_finding_failure-IsEscalated_example =
    handle_confirmed_finding_failure-IsEscalated outside "shop" policy_finding tables refl refl tt
      (inl three_failures)

-- An assessment without findings: the waiting delivery is resolved.
abbrev clean : AssessmentReport
clean = record { repo_name = "shop"; scores = []; overall_score = 100000 }

abbrev results : Result (List Checked) → List Checked
results (ok rs) = rs
results (raised e) = []

one_resolved :
    (check_pending_delivery_verifications outside "shop" clean tables).0
    ≡ ok (results (check_pending_delivery_verifications outside "shop" clean tables).0)
unfolding check_pending_delivery_verifications
    agent_it.Store.Deliveries.list_deliveries_pending_finding_check
    agent_it.Verify.Correlate.correlate_delivery_finding agent_it.Base.sort_by
    agent_it.Diff.current_finding_keys
one_resolved = refl

check_pending_delivery_verifications-settles_example :
    All
      (λ (r : Delivery). r.id ≡ 4 → is_pending "shop" r ≡ false)
      (check_pending_delivery_verifications outside "shop" clean tables).1.deliveries
check_pending_delivery_verifications-settles_example =
    check_pending_delivery_verifications-settles outside "shop" clean tables _ (waiting 4)
      (omega arith, (omega arith, (omega arith, (omega arith, tt)))) one_resolved
      (inr (inr (inr (inl refl)))) refl

get_next_action_state-IsNext_example :
    IsNext "shop" none tables
      (get_next_action_state "shop" (some "https://github.com/acme/shop") none none tables)
get_next_action_state-IsNext_example =
    get_next_action_state-IsNext "shop" none tables (some "https://github.com/acme/shop") none

-- One delivery waits, and no fix is generated for its finding.
abbrev one_waiting : Db
one_waiting = record tables { deliveries = failed_before 1 ∷ waiting 4 ∷ [] }

abbrev fixless : Outside
fixless = record outside {
  generate = λ category. record { files = []; agent = "security"; error = none };
}

one_fixed_again :
    (check_pending_delivery_verifications fixless "shop" assessment one_waiting).0
    ≡ ok (results (check_pending_delivery_verifications fixless "shop" assessment one_waiting).0)
unfolding check_pending_delivery_verifications
    agent_it.Store.Deliveries.list_deliveries_pending_finding_check
    agent_it.Verify.Correlate.correlate_delivery_finding agent_it.Base.sort_by
    agent_it.Diff.current_finding_keys agent_it.Diff.key_of agent_it.Base.lower
    agent_it.Verify.Redispatch.handle_confirmed_finding_failure get_finding_failure_count
    agent_it.Verify.log_outcome agent_it.Store.Deliveries.update_delivery
    agent_it.Verify.Redispatch.same_reject_reason_blocks_redispatch
    agent_it.Verify.Attribution.skill_names_for_findings agent_it.Registry.lookup
    agent_it.Registry.contract_for agent_it.Base.lookup agent_it.Registry.normalize
    agent_it.Verify.Dispatch.dispatch
one_fixed_again = refl

check_pending_delivery_verifications-IsWithin_example :
    IsWithin
      (get_finding_failure_count "shop" "network_policy" one_waiting.deliveries)
      (refixed_in "network_policy"
        (results (check_pending_delivery_verifications fixless "shop" assessment one_waiting).0))
      (get_finding_failure_count "shop" "network_policy"
        (check_pending_delivery_verifications fixless "shop" assessment one_waiting).1.deliveries)
check_pending_delivery_verifications-IsWithin_example =
    check_pending_delivery_verifications-IsWithin fixless "shop" assessment "network_policy"
      one_waiting _ (omega arith, (omega arith, tt)) (((λ e. cc), tt), (tt, tt)) one_fixed_again

-- A finding that a skill fixes still stands, and another delivery holds the lock of the
-- application, so that the check raises at the fix.
abbrev network_finding : FindingKey
network_finding = ("network", "no network policy")

abbrev waiting_network : Delivery
waiting_network = record (waiting 4) { target_findings = network_finding ∷ [] }

abbrev locked : Db
locked = record tables { deliveries = waiting_network ∷ []; locks = ("delivery:shop", 4) ∷ [] }

abbrev open_network : AssessmentReport
open_network = record assessment {
  scores =
      record {
        dimension = "security";
        score = 60;
        findings =
            record { category = "network"; description = "No network policy"; severity = "high" }
            ∷ [];
      }
      ∷ [];
}

raised_check :
    (check_delivery outside "shop" open_network waiting_network locked).0 ≡ raised in_progress
unfolding check_delivery agent_it.Verify.Correlate.correlate_delivery_finding agent_it.Base.sort_by
    agent_it.Diff.current_finding_keys agent_it.Diff.key_of agent_it.Base.lower
    agent_it.Verify.Redispatch.handle_confirmed_finding_failure get_finding_failure_count
    agent_it.Verify.log_outcome agent_it.Store.Deliveries.update_delivery
    agent_it.Verify.Redispatch.same_reject_reason_blocks_redispatch
    agent_it.Verify.Attribution.skill_names_for_findings agent_it.Registry.lookup
    agent_it.Registry.contract_for agent_it.Base.lookup agent_it.Registry.normalize
    agent_it.Verify.Dispatch.dispatch agent_it.Verify.Redispatch.deliver_fix
    agent_it.Store.Locks.claim_delivery_lock agent_it.Delivery.Route.route_and_deliver
    agent_it.Store.Skills.get_skill_cooldown
    agent_it.Verify.Attribution.record_skill_outcomes_for_findings
    agent_it.Store.Skills.record_skill_outcome agent_it.Store.Skills.skill_reject_reason_prefix
    agent_it.Base.strip agent_it.Base.show agent_it.Base.contains agent_it.Base.insert
    agent_it.Store.Skills.is_skill_cooling_down
raised_check = refl

check_delivery-settles_example :
    IsSettled 4 true (check_delivery outside "shop" open_network waiting_network locked).1
check_delivery-settles_example =
    check_delivery-settles outside "shop" open_network waiting_network locked (omega arith, refl)
