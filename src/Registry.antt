-- ===== src/Registry.antt =====
-- src/agentit/remediation/registry.py: which skill clears which finding, and where it is delivered.
-- The tables stand in Registry/Table, the theorems in Registry/Coherence and Registry/Lines.
mod Category
pub mod Contract
pub mod Table
pub mod Coherence
pub mod Lines
use agent_it.Base.{
  String, Option, none, some, List, [], ◌∷◌, ◌++ₛ◌, Bool, true, false, ◌&&◌, not, str_eq, keep_if,
  any, if◌then◌else◌, lookup as dict_get, string_eq, is_empty_text,
}
unfoldable pub use Category.{normalize}
pub use Category.{normalize_idem}
use Contract.{
  SolutionContract, Delivery, source, cluster, nowhere, EvidenceKind, dockerfile_pin, audit_wired,
  runtime_pin, migration_tooling, helm_chart, hpa_target, quota_manifest, cluster_kind,
  resource_limits, detect_only, cosign_sign_task, image_scan_task, grafana_dashboard,
  selector_target, argocd_application, sbom_ci, base_image_pin, workload_replicas, workload_probes,
}
use Table.{solution_contracts}

-- A finding key: its category and the prefix of its description.
abbrev pub FindingKey : Type 0
FindingKey = String × String

unfoldable pub contract_for : String → Option SolutionContract
contract_for category = dict_get (normalize category) solution_contracts

unfoldable pub allows_auto_pr : String → Bool
allows_auto_pr category = elim (contract_for category) [ none ↦ false | some c ↦ c.auto_pr ]

unfoldable pub remediable_findings : List FindingKey → List FindingKey
remediable_findings target_findings =
    keep_if (λ (f : FindingKey). not (is_empty_text f.0) && allows_auto_pr f.0) target_findings

-- Named `lookup` in the source.
unfoldable pub lookup : String → Option (String × String)
lookup category = elim (contract_for category) [
  | none ↦ none
  | some c ↦ if not c.auto_pr then none else some (c.domain, c.skill_name)
]

abbrev pub is_source : Delivery → Bool
is_source source = true
is_source _ = false

unfoldable pub clears_via_source : String → Bool
clears_via_source category = elim (contract_for category) [
  | none ↦ false
  | some c ↦ c.auto_pr && is_source c.delivery
]

-- `p or d` on texts
abbrev pub or_text : String → String → String
or_text p d = if is_empty_text p then d else p

path_hint : SolutionContract → Delivery → Bool → String
path_hint c nowhere self_managed = "(detect-only — no PR path)"
path_hint c source self_managed = "app repo (source patch)"
path_hint c cluster true =
    "app repo " ++ₛ or_text c.self_managed_path "chart/" ++ₛ " (self-managed)"
path_hint c cluster false = "gitops " ++ₛ or_text c.fleet_path "apps/{app}/" ++ₛ " (fleet)"

delivery_path_hint : String → Bool → String
unfolding path_hint
delivery_path_hint category self_managed = elim (contract_for category) [
  | none ↦ ""
  | some c ↦ path_hint c c.delivery self_managed
]

delivery_text : Delivery → String
delivery_text source = "source"
delivery_text cluster = "cluster"
delivery_text nowhere = "none"

evidence_text : EvidenceKind → String
evidence_text dockerfile_pin = "dockerfile_pin"
evidence_text audit_wired = "audit_wired"
evidence_text runtime_pin = "runtime_pin"
evidence_text migration_tooling = "migration_tooling"
evidence_text helm_chart = "helm_chart"
evidence_text hpa_target = "hpa_target"
evidence_text quota_manifest = "quota_manifest"
evidence_text cluster_kind = "cluster_kind"
evidence_text resource_limits = "resource_limits"
evidence_text detect_only = "detect_only"
evidence_text cosign_sign_task = "cosign_sign_task"
evidence_text image_scan_task = "image_scan_task"
evidence_text grafana_dashboard = "grafana_dashboard"
evidence_text selector_target = "selector_target"
evidence_text argocd_application = "argocd_application"
evidence_text sbom_ci = "sbom_ci"
evidence_text base_image_pin = "base_image_pin"
evidence_text workload_replicas = "workload_replicas"
evidence_text workload_probes = "workload_probes"

clear_path_hint : SolutionContract → Delivery → String
clear_path_hint c cluster =
    " Fleet → `" ++ₛ c.fleet_path ++ₛ "`; self-managed → `" ++ₛ c.self_managed_path ++ₛ "`."
clear_path_hint c source = " App-repo source patch."
clear_path_hint c nowhere = ""

-- The line of one category in `expected_clear_lines`.
pub clear_line : String → String
unfolding delivery_text evidence_text clear_path_hint
clear_line cat = elim (contract_for cat) [
  | none ↦ "Clear `" ++ₛ cat ++ₛ "` on next re-Assess."
  | some c ↦
      if not c.auto_pr
      then "`" ++ₛ cat ++ₛ "` is detect-only / no auto-PR — " ++ₛ c.clear_evidence ++ₛ "."
      else "Clears `"
        ++ₛ cat
        ++ₛ "` by "
        ++ₛ c.clear_evidence
        ++ₛ " (delivery: **"
        ++ₛ delivery_text c.delivery
        ++ₛ "**, evidence: `"
        ++ₛ evidence_text c.evidence_kind
        ++ₛ "`)."
        ++ₛ clear_path_hint c c.delivery
]

-- The loop over the findings, with the set of the categories that it has seen.
clear_lines_from : List String → List FindingKey → List String
clear_lines_from seen [] = []
clear_lines_from seen ((cat, _) ∷ rest) =
    let skip = clear_lines_from seen rest in
    let line = clear_line cat ∷ clear_lines_from (cat ∷ seen) rest in
    if any (λ (s : String). str_eq s cat) seen then skip else line

pub expected_clear_lines : List FindingKey → List String
expected_clear_lines target_findings = clear_lines_from [] target_findings
