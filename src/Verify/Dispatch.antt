-- ===== src/Verify/Dispatch.antt =====
-- `dispatch` of src/agentit/remediation/dispatcher.py: what is generated for a finding.
use agent_it.Base.{
  ℕ, String, Bool, ◌&&◌, not, Option, none, some, List, [], is_empty_text, if◌then◌else◌, ◌++ₛ◌,
  str_eq,
}
use agent_it.Registry as Contracts
use agent_it.Registry.{FindingKey}
use agent_it.Delivery.{Entry, category_eq}
use agent_it.Delivery.Route.{World}
use agent_it.Store.Skills.{is_skill_cooling_down, skill_cooldown_same_reason}
use agent_it.Verify.{Db}

-- What the dispatcher returns.
pub record Generated : Type 0 where
  pub files : List Entry
  pub agent : String
  pub error : Option String

-- The rest of the program during one check: the new assessment, the name of its repository, whether
-- the store has it, what the skill engine generates for a category, the world of a delivery, and
-- the time in microseconds and in seconds, the same throughout the check.
pub record Outside : Type 0 where
  pub assessment_id : String
  pub repo_name : String
  pub has_assessment : Bool
  pub generate : String → Generated
  pub world : World
  pub now : ℕ
  pub now_seconds : ℕ

abbrev pub no_files : String → String → Generated
no_files agent why = record { files = []; agent = agent; error = some why }

module _ (o : Outside) where
  dispatch_skill : String → String → String → String → Db → Generated
  dispatch_skill app category domain skill_name db =
      let cool_app = if is_empty_text app then o.repo_name else app in
      if not o.has_assessment
      then no_files domain ("Assessment " ++ₛ o.assessment_id ++ₛ " not found")
      else if not (is_empty_text cool_app)
          && not (str_eq skill_name "patch_base_image")
          && is_skill_cooling_down cool_app skill_name skill_cooldown_same_reason db.skills
      then no_files domain (
          "Skill '" ++ₛ skill_name ++ₛ "' is cooling down for " ++ₛ cool_app
          ++ₛ " after repeated identical rejects — skipped regenerate")
      else o.generate category

  dispatch_contract : Option (String × String) → String → String → Db → Generated
  unfolding dispatch_skill
  dispatch_contract none app category db =
      no_files "" ("No fix registered for category '" ++ₛ category ++ₛ "'")
  dispatch_contract (some (domain, skill_name)) app category db =
      dispatch_skill app category domain skill_name db

  -- `RemediationDispatcher.dispatch`
  unfoldable pub dispatch : String → String → Db → Generated
  unfolding dispatch_contract
  dispatch app category db = dispatch_contract (Contracts.lookup category) app category db
