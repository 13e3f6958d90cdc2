-- ===== src/Examples/Pulls.antt =====
-- The outcomes of pull requests in src/agentit/portal/pr_outcomes.py.
use agent_it.Base.{String, false, some, none, [], ◌∷◌, ◌≡◌, refl, map, All}
use agent_it.Store.Feedback.{get_rejection_count}
use agent_it.Pulls.{PrRecord, PrRecords}
use agent_it.Pulls.Outcomes.{Github, Db, compute_outcome, merge_outcome, close_outcome}
use agent_it.Pulls.Sync.{sync_pr_outcomes, attach_pr_outcomes, attached, candidates}
use agent_it.Pulls.Sync.Rows.{IsSync}
use agent_it.Pulls.Sync.Once.{IsAnswered, sync_pr_outcomes-IsSync, sync_pr_outcomes-again}
use agent_it.Pulls.Sync.Attached.{
  recorded_outcome, attach_pr_outcomes-recorded, sync_pr_outcomes-uncounted,
}

abbrev pull : String → String → PrRecord
pull url state = record {
  pr_url = url;
  category = "cluster_config";
  assessment_id = some "a1";
  app_name = "shop";
  target_findings = ("network_policy", "no network policy") ∷ [];
  raw_target_findings = [];
  state = state;
  reject_reason = "";
  edited_before_merge = false;
  edit_diff = [];
  lifecycle = none;
  needs_attention = false;
}

abbrev pulls : PrRecords
pulls = pull "pull/1" "merged" ∷ pull "pull/2" "closed" ∷ pull "pull/3" "open" ∷ []

abbrev answers : Github
answers = record {
  get_extra_commits = λ _. some [];
  get_status = λ _. some (record { labels = "agentit:reject-reason: wontfix" ∷ []; body = "" });
  get_comments = λ _. some [];
  get_onboarding = λ _. [];
  now = 5;
}

abbrev silent : Github
silent = record answers { get_extra_commits = λ _. none; get_status = λ _. none }

abbrev empty_tables : Db
empty_tables = record { outcomes = []; feedback = []; skills = []; calls = [] }

sync_pr_outcomes-IsSync_example :
    IsSync answers (candidates pulls) empty_tables (sync_pr_outcomes answers pulls empty_tables)
sync_pr_outcomes-IsSync_example = sync_pr_outcomes-IsSync answers pulls empty_tables

answered : All (IsAnswered answers) (candidates pulls)
unfolding compute_outcome
answered = (
  (merge_outcome [], refl),
  (
    (close_outcome (record { labels = "agentit:reject-reason: wontfix" ∷ []; body = "" }) [], refl),
    tt,
  ),
)

sync_pr_outcomes-again_example :
    sync_pr_outcomes silent pulls (sync_pr_outcomes answers pulls empty_tables).1
    ≡ ([], (sync_pr_outcomes answers pulls empty_tables).1)
sync_pr_outcomes-again_example = sync_pr_outcomes-again answers silent pulls empty_tables answered

attach_pr_outcomes-recorded_example :
    attach_pr_outcomes (sync_pr_outcomes answers pulls empty_tables).1.outcomes pulls
    ≡ map
        (λ (r : PrRecord).
          attached r (recorded_outcome (sync_pr_outcomes answers pulls empty_tables).1.outcomes r))
        pulls
attach_pr_outcomes-recorded_example =
    attach_pr_outcomes-recorded (sync_pr_outcomes answers pulls empty_tables).1.outcomes pulls
      ((sync_pr_outcomes-IsSync answers pulls empty_tables).distinct tt)

sync_pr_outcomes-uncounted_example :
    get_rejection_count "shop" "network_policy"
      (sync_pr_outcomes answers pulls empty_tables).1.feedback
    ≡ get_rejection_count "shop" "network_policy" []
sync_pr_outcomes-uncounted_example =
    sync_pr_outcomes-uncounted answers pulls empty_tables "shop" "network_policy" (refl, (refl, tt))
