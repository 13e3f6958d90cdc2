-- ===== src/Registry/Table/Last.antt =====
-- Rows of `SOLUTION_CONTRACTS` of remediation/registry.py, in the order of the source.
use agent_it.Base.{String, List, [], ◌∷◌, true, false}
use agent_it.Registry.Contract.{
  SolutionContract, contract, detect_only, helm_chart, migration_tooling, nowhere, source,
  workload_probes,
}

abbrev pub last_contracts : List (String × SolutionContract)
last_contracts =
    (
      "migration",
      contract "data_governance" "db-migration-tooling" source
          "scaffolding Alembic/SQL with real DDL upgrade() (refuse SELECT 1 / pass / comment-only op.execute); hand-rolled store DDL already passes"
          migration_tooling ([]) true ([]),
    )
    ∷ (
      "iac",
      contract "infrastructure" "helm-chart" source
          "adding a real Helm chart (Chart.yaml + templates) in the app repo" helm_chart ([]) true
          ([]),
    )
    ∷ (
      "manifests",
      contract "infrastructure" "helm-chart" source
          "adding Helm templates with apiVersion/kind in the app repo" helm_chart ([]) true ([]),
    )
    ∷ (
      "health",
      contract "infrastructure" "workload-health-probes" source
          "adding livenessProbe+readinessProbe on Deployment/Rollout YAML in the app repo"
          workload_probes ("health-probes-policy" ∷ []) true ([]),
    )
    ∷ (
      "license",
      contract "compliance" "license-file-exists" nowhere
          "detect-only: LICENSE* presence — human adds license text (no auto-PR)" detect_only ([])
          false ([]),
    )
    ∷ (
      "backup",
      contract "data_governance" "backup-config-exists" nowhere
          "detect-only: backup CronJob/Crunchy schedule — human designs backup (no auto-PR)"
          detect_only ([]) false ([]),
    )
    ∷ (
      "retention",
      contract "data_governance" "retention-policy-exists" nowhere
          "detect-only: retention policy doc/config — human authors policy (no auto-PR)" detect_only
          ([]) false ([]),
    )
    ∷ (
      "logging",
      contract "observability" "structured-logging-detected" nowhere
          "detect-only: structured logging library — human wires logging (no auto-PR)" detect_only
          ([]) false ([]),
    )
    ∷ (
      "instrumentation",
      contract "observability" "structured-logging-detected" nowhere
          "detect-only: OpenTelemetry SDK in app source — human instruments (no auto-PR)"
          detect_only ([]) false ([]),
    )
    ∷ (
      "secrets",
      contract "security" "__detect_only_secrets__" nowhere
          "detect-only: rotate leaked secret + ExternalSecrets/Vault — human-only (no auto-PR)"
          detect_only ([]) false ([]),
    )
    ∷ []
