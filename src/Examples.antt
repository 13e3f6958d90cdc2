-- ===== src/Examples.antt =====
-- Concrete inputs for the theorems of src/agentit/remediation/registry.py,
-- src/agentit/portal/delivery.py, src/agentit/portal/quality_prs.py and the others.
mod Registry
mod Delivery
mod Consumer
mod Limits
mod Diff
mod Quality
mod Store
mod Verify
mod Scoring
mod SecretCache
mod Pulls
mod Slo
mod Chart
use agent_it.Base.{
  String, Bool, true, false, Option, none, some, List, [], ◌∷◌, contains, if◌then◌else◌, str_eq,
}
use agent_it.Delivery.{Tools, Entry, Manifest, Document, mapping, unaddressed}

-- A Deployment in the namespace of its application.
abbrev deployment : Manifest
deployment = record {
  api_version = "apps/v1";
  kind = "Deployment";
  has_metadata = true;
  name = "shop";
  namespace = "shop";
}

abbrev secret : Manifest
secret = record {
  api_version = "v1";
  kind = "Secret";
  has_metadata = true;
  name = "token";
  namespace = "shop";
}

-- Readers that know three texts of YAML.
abbrev pub tools : Tools
tools = record {
  load_all = λ s.
      if str_eq s "deployment"
      then some (mapping deployment ∷ [])
      else if str_eq s "secret"
      then some (mapping secret ∷ [])
      else none;
  path_suffix = λ p. if contains p ".yaml" then ".yaml" else if contains p ".md" then ".md" else "";
  placeholder_field = λ s. contains s "REPLACE_ME";
}

abbrev pub file : String → String → String → String → Entry
file path category skill content = record {
  path = some path;
  target_path = none;
  category = some category;
  skill_name = some skill;
  domain = none;
  description = none;
  content = some content;
  finding_addressed = unaddressed;
  finding_cluster = none;
  companion_layer = none;
  edited = false;
}

-- A manifest that isolates a workload, a secret, a report, and a change of the code.
abbrev pub policy : Entry
policy = file "policy.yaml" "security" "network-policy" "deployment"

abbrev pub token : Entry
token = file "token.yaml" "security" "" "secret"

abbrev pub report : Entry
report = file "cost-report.md" "cost" "" ""

abbrev pub patch : Entry
patch = file "Containerfile" "codechange" "containerfile" "FROM registry/ubi:9.4"

abbrev pub batch : List Entry
batch = policy ∷ token ∷ report ∷ patch ∷ []
