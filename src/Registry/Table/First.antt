-- ===== src/Registry/Table/First.antt =====
-- Rows of `SOLUTION_CONTRACTS` of remediation/registry.py, in the order of the source.
use agent_it.Base.{String, List, [], ◌∷◌, true}
use agent_it.Registry.Contract.{
  SolutionContract, contract, audit_wired, base_image_pin, cluster, cluster_kind, cosign_sign_task,
  dockerfile_pin, image_scan_task, resource_limits, sbom_ci, source,
}

abbrev pub first_contracts : List (String × SolutionContract)
first_contracts =
    (
      "container",
      contract "security" "containerfile" source
          "pinning/hardening each targeted Dockerfile/Containerfile (:latest pin; USER/HEALTHCHECK/UBI FROM on that file when finding asks)"
          dockerfile_pin
          ("image-registry-policy" ∷ "limitrange" ∷ "image-scan-task" ∷ "kyverno-require-labels"
            ∷ [])
          true ([]),
    )
    ∷ (
      "dockerfile",
      contract "security" "containerfile" source
          "pinning/hardening each targeted Dockerfile/Containerfile (:latest pin; USER/HEALTHCHECK/UBI FROM on that file when finding asks)"
          dockerfile_pin
          ("image-registry-policy" ∷ "limitrange" ∷ "image-scan-task" ∷ "kyverno-require-labels"
            ∷ [])
          true ([]),
    )
    ∷ (
      "network",
      contract "security" "network-policy" cluster
          "applying a NetworkPolicy that isolates the workload" cluster_kind ([]) true
          ("NetworkPolicy" ∷ []),
    )
    ∷ (
      "scanning",
      contract "security" "image-scan-task" cluster
          "adding a Tekton Task that runs trivy/grype/snyk with pinned images (no :latest, no empty Task)"
          image_scan_task ([]) true ([]),
    )
    ∷ (
      "vulnerability",
      contract "security" "image-scan-task" cluster
          "adding a Tekton Task that runs trivy/grype/snyk with pinned images (no :latest, no empty Task)"
          image_scan_task ([]) true ([]),
    )
    ∷ (
      "cve",
      contract "security" "image-scan-task" cluster
          "adding a Tekton Task that runs trivy/grype/snyk with pinned images (no :latest, no empty Task)"
          image_scan_task ([]) true ([]),
    )
    ∷ (
      "image_signing",
      contract "security" "cosign-sign-task" cluster
          "adding a Tekton Task that runs cosign sign (keyless Sigstore)" cosign_sign_task
          ("image-scan-task" ∷ "sbom-task" ∷ "image-registry-policy" ∷ "compliance-evidence" ∷ [])
          true ([]),
    )
    ∷ (
      "resource",
      contract "security" "resource-limits" cluster "setting container resource requests/limits"
          resource_limits ([]) true ([]),
    )
    ∷ (
      "resources",
      contract "security" "resource-limits" cluster "setting container resource requests/limits"
          resource_limits ([]) true ([]),
    )
    ∷ (
      "base_image",
      contract "security" "patch_base_image" source "patching the base image reference in source"
          base_image_pin ([]) true ([]),
    )
    ∷ (
      "policy",
      contract "compliance" "kyverno-require-labels" cluster
          "enforcing required app labels via a Kyverno Policy (labels-only — not resource limits or image allow-lists)"
          cluster_kind ("image-registry-policy" ∷ []) true ("Policy" ∷ "ClusterPolicy" ∷ []),
    )
    ∷ (
      "sbom",
      contract "compliance" "sbom-ci" source
          "adding CI SBOM generation (GitHub Action anchore/sbom-action or Tekton Pipeline sbom step)"
          sbom_ci ("sbom-task" ∷ "sbom-artifact" ∷ []) true ([]),
    )
    ∷ (
      "audit",
      contract "compliance" "app-audit-logging" source
          "wiring a packaged app audit module + import/call site (not repo-root audit.py alone)"
          audit_wired ("audit-policy" ∷ []) true ([]),
    )
    ∷ (
      "pipeline",
      contract "cicd" "tekton-pipeline" cluster
          "adding a Tekton Pipeline/PipelineRun when the repo has no CI yet" cluster_kind ([]) true
          ("Pipeline" ∷ "PipelineRun" ∷ []),
    )
    ∷ []
