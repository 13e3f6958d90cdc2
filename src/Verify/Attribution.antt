-- ===== src/Verify/Attribution.antt =====
-- `skill_names_for_findings` and `record_skill_outcomes_for_findings` of src/agentit/skill_engine.py.
use agent_it.Base.{
  ℕ, String, Option, none, some, List, [], ◌∷◌, ◌++◌, if◌then◌else◌, is_empty_text, is_empty, not,
  keep_if,
}
use agent_it.Registry as Contracts
use agent_it.Registry.{FindingKey}
use agent_it.Registry.Lines.{distinct}
use agent_it.Store.Skills.{Outcomes, record_skill_outcome}

abbrev skill_of : Option (String × String) → List String
skill_of none = []
skill_of (some (domain, skill_name)) = skill_name ∷ []

abbrev named_skill : FindingKey → List String
named_skill k = if is_empty_text k.0 then [] else skill_of (Contracts.lookup k.0)

abbrev all_skills : List FindingKey → List String
all_skills [] = []
all_skills (k ∷ keys) = named_skill k ++ all_skills keys

unfoldable pub skill_names_for_findings : List FindingKey → List String
skill_names_for_findings finding_keys = distinct (all_skills finding_keys)

abbrev record_all : List String → String → String → String → ℕ → Outcomes → Outcomes
record_all [] app outcome reason now rows = rows
record_all (s ∷ names) app outcome reason now rows =
    record_all names app outcome reason now (record_skill_outcome s app outcome reason now rows)

-- With the names of the skills, which the contracts of the findings replace where there are none.
unfoldable pub record_skill_outcomes :
    List String → String → List FindingKey → String → String → ℕ → Outcomes → Outcomes
unfolding skill_names_for_findings
record_skill_outcomes skill_names app finding_keys outcome reason now rows =
    let names =
      if is_empty skill_names then skill_names_for_findings finding_keys else skill_names in
    record_all (distinct (keep_if (λ (name : String). not (is_empty_text name)) names)) app outcome
      reason now rows

unfoldable pub record_skill_outcomes_for_findings :
    String → List FindingKey → String → String → ℕ → Outcomes → Outcomes
unfolding skill_names_for_findings
record_skill_outcomes_for_findings app finding_keys outcome reason now rows =
    record_all (skill_names_for_findings finding_keys) app outcome reason now rows
