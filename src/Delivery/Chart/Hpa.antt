-- ===== src/Delivery/Chart/Hpa.antt =====
-- `self_managed_hpa_correctness_reason` of src/agentit/portal/self_managed_hpa.py.
use agent_it.Base.{
  ℕ, String, Bool, true, ◌&&◌, ◌||◌, not, Option, none, some, List, first_some, ltb, str_eq, strip,
  contains, is_empty_text, if◌then◌else◌, ◌++ₛ◌,
}

-- What the code reads of a HorizontalPodAutoscaler: the fields of its `scaleTargetRef`, where a
-- missing one is empty, and `maxReplicas` as a number, if it is one (a negative one as 0).
pub record Hpa : Type 0 where
  pub kind : String
  pub name : String
  pub api_version : String
  pub max_replicas : Option ℕ

-- The autoscalers among the YAML documents of a text, and the matches of the patterns
-- `_HARDCODED_AGENTIT_NAMESPACE_RE`, `_WRONG_RELEASE_NAME_SUFFIX` and `_RELEASE_NAME_ONLY`. `quoted` is
-- `repr`.
pub record ChartTools : Type 0 where
  pub load_hpas : String → List Hpa
  pub hardcoded_namespace : String → Bool
  pub wrong_release_name_suffix : String → Bool
  pub release_name_only : String → Bool
  pub quoted : String → String

-- `SelfManagedChartHints`
pub record Hints : Type 0 where
  pub uses_rollout : Bool
  pub has_rwo_workload_pvc : Bool

abbrev or_missing : String → String
or_missing kind = if is_empty_text kind then "(missing)" else kind

-- `max_r is None or max_r > 1`
abbrev pub scales_out : Option ℕ → Bool
scales_out none = true
scales_out (some n) = ltb 1 n

module _ (tools : ChartTools) where
  unfoldable pub rollout_reason : Hpa → Option String
  rollout_reason h =
      let name = strip h.name in
      if not (str_eq h.kind "Rollout")
      then some (
          "HPA scaleTargetRef.kind must be Rollout (argoproj.io) when the "
          ++ₛ "chart uses Argo Rollouts; got "
          ++ₛ or_missing h.kind
          ++ₛ " — refusing "
          ++ₛ "Deployment-targeted HPA that would not attach")
      else if not (is_empty_text h.api_version) && not (contains h.api_version "argoproj.io")
      then some (
          "HPA scaleTargetRef.apiVersion must be argoproj.io/* for Rollout "
          ++ₛ "targets; got "
          ++ₛ tools.quoted h.api_version)
      else if tools.wrong_release_name_suffix name
          || (not (is_empty_text name) && not (tools.release_name_only name))
      then some (
          "HPA scaleTargetRef.name must be {{ .Release.Name }} (chart "
          ++ₛ "workload metadata.name); got "
          ++ₛ tools.quoted name
          ++ₛ " — refusing "
          ++ₛ "{{ .Release.Name }}-agentit / wrong release pattern")
      else none

  unfoldable pub deployment_reason : Hpa → Option String
  deployment_reason h =
      if tools.wrong_release_name_suffix (strip h.name)
      then some (
          "HPA scaleTargetRef.name must not append -agentit to "
          ++ₛ "{{ .Release.Name }}; use the workload's metadata.name")
      else none

  abbrev replicas_reason : Hints → Hpa → Option String
  replicas_reason hints h =
      if hints.has_rwo_workload_pvc && scales_out h.max_replicas
      then some (
          "chart mounts a ReadWriteOnce data PVC — HPA maxReplicas>1 is "
          ++ₛ "unsafe (Multi-Attach); skip HPA or use maxReplicas: 1 with an "
          ++ₛ "explicit RWO explanation rather than opening a lying PR")
      else none

  abbrev pub or_else : Option String → Option String → Option String
  or_else (some reason) next = some reason
  or_else none next = next

  abbrev pub of_hpa_doc : Hints → Hpa → Option String
  of_hpa_doc hints h =
      or_else (if hints.uses_rollout then rollout_reason h else deployment_reason h)
        (replicas_reason hints h)

  -- The reason of the first autoscaler that has one.
  unfoldable pub self_managed_hpa_correctness_reason : String → Hints → Option String
  unfolding rollout_reason deployment_reason
  self_managed_hpa_correctness_reason content hints =
      first_some (of_hpa_doc hints) (tools.load_hpas content)
