-- ===== src/Examples/Store.antt =====
-- Rows of the tables in src/agentit/portal/store.
use agent_it.Base.{
  ℕ, ◌+◌, ◌≤◌, ◌<◌, String, Bool, true, false, some, none, List, [], ◌∷◌, ◌≡◌, ◌≢◌, ◌↔◌, refl, sym,
  ◌∙◌, arith, str_eq, eq_iff, is_empty_text, strip, In,
}
use agent_it.Store.Locks
use agent_it.Store.Locks.{run-IsHeld}
use agent_it.Store.Webhooks
use agent_it.Store.Webhooks.{run-IsDone, IsDone}
use agent_it.Store.Jobs
use agent_it.Store.Jobs.{grants, create_assessment_job}
use agent_it.Store.Jobs.Claims.{grants-le-one}
use agent_it.Store.Skills.{
  Outcome, Outcomes, CooldownInfo, get_skill_cooldown, is_skill_cooling_down,
}
use agent_it.Store.Skills.Cooldown.{IsRepeated, is_skill_cooling_down-IsRepeated}
use agent_it.Store.Skills.Listing.{list_cooled_skills}
use agent_it.Store.Skills.Listing.Times.{covers}
use agent_it.Store.Skills.Listing.Agrees.{list_cooled_skills-get_skill_cooldown}
use agent_it.Store.Skills.Clearing.{IsReset, clear_skill_cooldown-IsReset}

abbrev held : Locks.Locks
held = ("delivery:shop", 100) ∷ []

abbrev lock_calls : List Locks.Call
lock_calls =
    Locks.claim "delivery:shop" 500
    ∷ Locks.claim "delivery:web" 600
    ∷ Locks.release "delivery:web"
    ∷ []

-- Texts that a test tells apart.
differ : (s t : String) → str_eq s t ≡ false → s ≢ t
differ s t h e = cc (sym h ∙ (eq_iff s t).1 e)

web-ne-shop : ◌≢◌ {A = String} "delivery:web" "delivery:shop"
web-ne-shop = differ "delivery:web" "delivery:shop" refl

other-ne-done : ◌≢◌ {A = String} "evt-2" "evt-1"
other-ne-done = differ "evt-2" "evt-1" refl

abbrev taken_over : Locks.Locks
taken_over = (Locks.claim_delivery_lock "delivery:shop" 2000 held).1

run-IsHeld_example :
    Locks.IsHeld "delivery:shop" 2000 (Locks.run lock_calls taken_over)
    × (Locks.claim_delivery_lock "delivery:shop" 3800 (Locks.run lock_calls taken_over)
        ≡ (false, Locks.run lock_calls taken_over))
unfolding Locks.claim_delivery_lock agent_it.Base.lookup
run-IsHeld_example =
    run-IsHeld "delivery:shop" 2000 3800 lock_calls held refl
      (λ e. omega arith, (λ e. omega arith, (web-ne-shop, tt))) (omega arith)

abbrev processed : Webhooks.Webhooks
processed = ("evt-1", record { processed_at = 40; completed = true }) ∷ []

abbrev webhook_calls : List Webhooks.Call
webhook_calls =
    Webhooks.claim "evt-1" 2000 ∷ Webhooks.claim "evt-2" 2001 ∷ Webhooks.release "evt-2" ∷ []

processed-IsDone : IsDone "evt-1" processed
unfolding agent_it.Base.lookup
processed-IsDone = record {
  row = record { processed_at = 40; completed = true };
  stored = refl;
  completed = refl;
}

run-IsDone_example :
    IsDone "evt-1" (Webhooks.run webhook_calls processed)
    × (Webhooks.claim_webhook "evt-1" 9000 (Webhooks.run webhook_calls processed)
        ≡ (false, Webhooks.run webhook_calls processed))
run-IsDone_example =
    run-IsDone "evt-1" 9000 webhook_calls processed processed-IsDone (tt, (tt, (other-ne-done, tt)))

-- Two polls of a job that continues into onboarding, with an update and a sweep between them.
abbrev polls : List Jobs.Call
polls =
    Jobs.progress "job-1" "assessing" "cloning" ""
    ∷ Jobs.claim "job-1"
    ∷ Jobs.reap 1800 60
    ∷ Jobs.claim "job-1"
    ∷ []

abbrev one_job : Jobs.Jobs
one_job = create_assessment_job "job-1" "https://github.com/acme/shop" true 50 []

grants-le-one_example : grants "job-1" polls one_job ≤ 1
grants-le-one_example = grants-le-one "job-1" polls one_job (λ e. refl, (tt, (tt, (tt, tt))))

one_grant : grants "job-1" polls one_job ≡ 1
unfolding grants Jobs.call Jobs.is_grant create_assessment_job Jobs.claim_continue_onboard
    Jobs.update_remediation_job Jobs.reap_orphaned_jobs
one_grant = refl

abbrev reject : String → ℕ → Outcome
reject reason now = record {
  skill_name = "network-policy";
  app_name = "shop";
  outcome = "rejected";
  reason = reason;
  created_at = now;
}

abbrev rejects : Outcomes
rejects = reject "Wrong port: 80" 10 ∷ reject "wrong port: 443" 20 ∷ []

is_skill_cooling_down-IsRepeated_example :
    (is_skill_cooling_down "shop" "network-policy" 2 rejects ≡ true)
    ↔ IsRepeated 2 "shop" "network-policy" rejects
is_skill_cooling_down-IsRepeated_example =
    is_skill_cooling_down-IsRepeated "shop" "network-policy" 2 rejects (omega arith)

repeated_reject : is_skill_cooling_down "shop" "network-policy" 2 rejects ≡ true
unfolding is_skill_cooling_down agent_it.Store.Skills.skill_reject_reason_prefix agent_it.Base.lower
    agent_it.Base.strip agent_it.Base.contains agent_it.Base.prefix agent_it.Base.before
    agent_it.Base.insert agent_it.Base.lookup
repeated_reject = refl

by_hand : is_empty_text (strip "fixed by hand") ≡ false
unfolding strip
by_hand = refl

clear_skill_cooldown-IsReset_example :
    IsReset "shop" "network-policy" "fixed by hand" "mia" 30 2 rejects
clear_skill_cooldown-IsReset_example =
    clear_skill_cooldown-IsReset "shop" "network-policy" "fixed by hand" "mia" 30 2 rejects by_hand
      (omega arith, (omega arith, tt))

abbrev repeated : CooldownInfo
repeated = record {
  skill_name = "network-policy";
  app_name = "shop";
  reason_prefix = "wrong port";
  count = 2;
}

-- A listing of all applications.
listed_reject : list_cooled_skills "" 2 rejects ≡ repeated ∷ []
unfolding list_cooled_skills agent_it.Store.Skills.skill_reject_reason_prefix agent_it.Base.lower
    agent_it.Base.strip agent_it.Base.contains agent_it.Base.prefix agent_it.Base.before
    agent_it.Base.insert agent_it.Base.lookup
listed_reject = refl

list_cooled_skills-get_skill_cooldown_example : In repeated (list_cooled_skills "" 2 rejects) ↔ (
    (covers "" "shop" ≡ true)
    × (get_skill_cooldown "shop" "network-policy" 2 rejects ≡ some repeated))
list_cooled_skills-get_skill_cooldown_example =
    list_cooled_skills-get_skill_cooldown "" 2 rejects repeated
