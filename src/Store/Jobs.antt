-- ===== src/Store/Jobs.antt =====
-- The table `remediation_jobs` of portal/store/jobs.py. Times are whole seconds. The theorem stands
-- in Jobs/Claims.
pub mod Claims
use agent_it.Base.{
  ℕ, ◌+◌, ◌≤◌, String, Bool, true, false, ◌&&◌, not, List, [], ◌∷◌, ◌++◌, ◌≡◌, refl, sym, ap, ◌∙◌,
  subst, arith, and_true, ltb, any, map, if◌then◌else◌, str_eq, eq_iff, All, Bool-cases, inl, inr,
  is_empty_text,
}

pub record Job : Type 0 where
  pub id : String
  pub assessment_id : String
  pub status : String
  pub current_step : String
  pub steps_completed : List String
  pub error : String
  pub created_at : ℕ

abbrev pub Jobs : Type 0
Jobs = List Job

abbrev pub continue_onboard : String
continue_onboard = "continue_onboard"

abbrev pub is_step : String → List String → Bool
is_step s steps = any (λ (t : String). str_eq t s) steps

-- The identifier is a fresh uuid; the text is cut to 200 characters before it comes here.
unfoldable pub create_assessment_job : String → String → Bool → ℕ → Jobs → Jobs
create_assessment_job id repo_url continues now jobs =
    jobs
    ++ (record {
      id = id;
      assessment_id = "";
      status = "assessing";
      current_step = repo_url;
      steps_completed = if continues then continue_onboard ∷ [] else [];
      error = "";
      created_at = now;
    }
        ∷ [])

unfoldable pub create_remediation_job : String → String → ℕ → Jobs → Jobs
create_remediation_job id assessment_id now jobs =
    jobs
    ++ (record {
      id = id;
      assessment_id = assessment_id;
      status = "pending";
      current_step = "";
      steps_completed = [];
      error = "";
      created_at = now;
    }
        ∷ [])

-- `UPDATE … WHERE id = …`
abbrev pub on_job : (Job → Job) → String → Job → Job
on_job f id j = if str_eq j.id id then f j else j

abbrev pub assessed : String → String → String → Job → Job
assessed status step assessment_id j = record j {
  status = status;
  current_step = step;
  assessment_id = assessment_id;
}

unfoldable pub update_assessment_job : String → String → String → String → Jobs → Jobs
update_assessment_job id status step assessment_id jobs =
    map (on_job (assessed status step assessment_id) id) jobs

abbrev pub add_step : String → List String → List String
add_step step steps = if is_step step steps then steps else steps ++ (step ∷ [])

abbrev pub progressed : String → String → String → Job → Job
progressed status step error j =
    if is_empty_text step then record j { status = status; error = error } else record j {
      status = status;
      current_step = step;
      steps_completed = add_step step j.steps_completed;
      error = error;
    }

unfoldable pub update_remediation_job : String → String → String → String → Jobs → Jobs
update_remediation_job id status step error jobs =
    map (on_job (progressed status step error) id) jobs

abbrev pub is_claimable : String → Job → Bool
is_claimable id j = str_eq j.id id && is_step continue_onboard j.steps_completed

abbrev pub unclaimable : Job → Job
unclaimable j = record j { steps_completed = [] }

-- The answer says whether a row was affected.
unfoldable pub claim_continue_onboard : String → Jobs → Bool × Jobs
claim_continue_onboard id jobs = (
  any (is_claimable id) jobs,
  map (λ (j : Job). if is_claimable id j then unclaimable j else j) jobs,
)

abbrev pub is_terminal : Job → Bool
is_terminal j =
    any (λ (s : String). str_eq s j.status) ("completed" ∷ "failed" ∷ "needs_attention" ∷ [])

abbrev pub interrupted : String
interrupted = "Interrupted by a service restart before it finished. Please retry."

abbrev pub is_orphan : ℕ → ℕ → Job → Bool
is_orphan max_age now j = not (is_terminal j) && ltb (j.created_at + max_age) now

unfoldable pub reap_orphaned_jobs : ℕ → ℕ → Jobs → Jobs
reap_orphaned_jobs max_age now jobs =
    map
      (λ (j : Job).
        if is_orphan max_age now j then record j { status = "failed"; error = interrupted } else j)
      jobs

-- The statements on the table after the job is created.
pub data Call : Type 0 where
  assess progress : String → String → String → String → Call
  claim : String → Call
  reap : ℕ → ℕ → Call

unfoldable pub call : Call → Jobs → Jobs
unfolding update_assessment_job update_remediation_job claim_continue_onboard reap_orphaned_jobs
call (assess id status step assessment_id) jobs =
    update_assessment_job id status step assessment_id jobs
call (progress id status step error) jobs = update_remediation_job id status step error jobs
call (claim id) jobs = (claim_continue_onboard id jobs).1
call (reap max_age now) jobs = reap_orphaned_jobs max_age now jobs

-- Whether the statement is a claim of `id` that is granted.
unfoldable pub is_grant : String → Call → Jobs → Bool
unfolding claim_continue_onboard
is_grant id (claim i) jobs = str_eq i id && (claim_continue_onboard i jobs).0
is_grant id _ jobs = false

-- How often the claims of `id` in a run are granted.
unfoldable pub grants : String → List Call → Jobs → ℕ
unfolding call is_grant
grants id [] jobs = 0
grants id (c ∷ calls) jobs = (if is_grant id c jobs then 1 else 0) + grants id calls (call c jobs)
