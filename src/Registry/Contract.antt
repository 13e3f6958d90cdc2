-- ===== src/Registry/Contract.antt =====
-- `SolutionContract` and the evidence kinds of remediation/registry.py and clear_evidence.py.
use agent_it.Base.{String, Bool, List}

-- The field `delivery`: `nowhere` is the source's "none".
pub data Delivery : Type 0 where
  source cluster nowhere : Delivery

pub data EvidenceKind : Type 0 where
  dockerfile_pin audit_wired runtime_pin migration_tooling helm_chart hpa_target quota_manifest
        cluster_kind resource_limits detect_only cosign_sign_task image_scan_task grafana_dashboard
        selector_target argocd_application sbom_ci base_image_pin workload_replicas
        workload_probes :
      EvidenceKind

pub record SolutionContract : Type 0 where
  pub domain : String
  pub skill_name : String
  pub delivery : Delivery
  pub clear_evidence : String
  pub evidence_kind : EvidenceKind
  pub evidence_params : List String
  pub refuse_companions : List String
  pub auto_pr : Bool
  pub fleet_path : String
  pub self_managed_path : String

abbrev pub fleet_path_for : Delivery → String
fleet_path_for cluster = "apps/{app}/"
fleet_path_for _ = ""

abbrev pub self_managed_path_for : Delivery → String
self_managed_path_for cluster = "chart/"
self_managed_path_for source = "."
self_managed_path_for nowhere = ""

-- `_c`, with its default paths: no row of the table gives others.
abbrev pub contract :
    String
    → String
    → Delivery
    → String
    → EvidenceKind
    → List String
    → Bool
    → List String
    → SolutionContract
contract domain skill_name delivery clear_evidence evidence_kind refuse auto_pr kinds = record {
  domain = domain;
  skill_name = skill_name;
  delivery = delivery;
  clear_evidence = clear_evidence;
  evidence_kind = evidence_kind;
  evidence_params = kinds;
  refuse_companions = refuse;
  auto_pr = auto_pr;
  fleet_path = fleet_path_for delivery;
  self_managed_path = self_managed_path_for delivery;
}
