-- ===== src/Registry/Table/Middle.antt =====
-- Rows of `SOLUTION_CONTRACTS` of remediation/registry.py, in the order of the source.
use agent_it.Base.{String, List, [], ◌∷◌, true, false}
use agent_it.Registry.Contract.{
  SolutionContract, contract, argocd_application, cluster, cluster_kind, detect_only,
  grafana_dashboard, hpa_target, nowhere, quota_manifest, runtime_pin, selector_target, source,
  workload_replicas,
}

abbrev pub middle_contracts : List (String × SolutionContract)
middle_contracts =
    (
      "tekton_migration",
      contract "cicd" "ci-pipeline-exists" nowhere
          "detect-only: CI exists (GHA/GitLab/Jenkins) but is not Tekton — optional OpenShift Pipelines migration (no auto-PR)"
          detect_only ([]) false ([]),
    )
    ∷ (
      "gitops",
      contract "cicd" "argocd-application" cluster
          "registering an Argo CD Application with spec.source.repoURL + path/chart (refuse empty Application / missing deploy/ tree)"
          argocd_application ([]) true ([]),
    )
    ∷ (
      "metrics",
      contract "observability" "service-monitor" cluster
          "adding a ServiceMonitor whose selector matches a live Service" selector_target ([]) true
          ("ServiceMonitor" ∷ []),
    )
    ∷ (
      "tracing",
      contract "observability" "structured-logging-detected" nowhere
          "detect-only: app OpenTelemetry/Jaeger/Zipkin SDK instrumentation — human instruments (collector YAML alone does not clear; no auto-PR)"
          detect_only ([]) false ([]),
    )
    ∷ (
      "dashboards",
      contract "observability" "grafana-dashboard" cluster
          "adding a Grafana dashboard ConfigMap (grafana_dashboard label + non-empty panels JSON)"
          grafana_dashboard ([]) true ([]),
    )
    ∷ (
      "alerting",
      contract "observability" "alerting-rules" cluster
          "adding PrometheusRule alerting rules for the app" cluster_kind ([]) true
          ("PrometheusRule" ∷ []),
    )
    ∷ (
      "rbac",
      contract "security" "rbac" cluster "adding a ServiceAccount/Role/RoleBinding for the workload"
          cluster_kind ([]) true
          ("ServiceAccount" ∷ "Role" ∷ "RoleBinding" ∷ "ClusterRoleBinding" ∷ []),
    )
    ∷ (
      "autoscaling",
      contract "infrastructure" "hpa" cluster
          "adding an HPA whose scaleTargetRef resolves to a live workload" hpa_target ([]) true
          ([]),
    )
    ∷ (
      "monitoring",
      contract "observability" "service-monitor" cluster
          "adding a ServiceMonitor whose selector matches a live Service" selector_target ([]) true
          ("ServiceMonitor" ∷ []),
    )
    ∷ (
      "scaling",
      contract "infrastructure" "hpa" cluster
          "adding an HPA whose scaleTargetRef resolves to a live Deployment/Rollout" hpa_target ([])
          true ([]),
    )
    ∷ (
      "quota",
      contract "infrastructure" "resourcequota" cluster
          "adding a ResourceQuota/LimitRange in the app namespace" quota_manifest ([]) true ([]),
    )
    ∷ (
      "availability",
      contract "infrastructure" "pdb" cluster
          "adding a PodDisruptionBudget whose selector matches a live workload" selector_target
          ("pod-delete" ∷ []) true ("PodDisruptionBudget" ∷ []),
    )
    ∷ (
      "replicas",
      contract "infrastructure" "workload-replicas" source
          "setting Deployment/Rollout replicas >= 2 in the app repo" workload_replicas
          ("pod-delete" ∷ "pdb" ∷ []) true ([]),
    )
    ∷ (
      "eol",
      contract "infrastructure" "eol-upgrade" source
          "bumping the runtime pin (.node-version / .python-version) in the app repo" runtime_pin
          ([]) true ([]),
    )
    ∷ []
