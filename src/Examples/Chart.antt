-- ===== src/Examples/Chart.antt =====
-- Self-managed deliveries into the chart in src/agentit/portal/delivery.py.
use agent_it.Base.{
  ◌++ₛ◌, String, false, true, Option, some, none, List, [], ◌∷◌, map, ◌≡◌, ◌↔◌, All, contains,
  if◌then◌else◌, refl, is_empty,
}
use agent_it.Delivery.{Tools, Entry, unaddressed}
use agent_it.Delivery.Chart.{
  Repository, target_of, chart_files, gate_self_managed_chart_files, handed_over,
  deliver_self_managed_source_pr, filter_self_managed_delivery_files,
}
use agent_it.Delivery.Chart.Remap.{remap_self_managed_cluster_files}
use agent_it.Delivery.Chart.Hpa.{ChartTools, Hints}
use agent_it.Delivery.Chart.Reasons.{IsFit}
use agent_it.Delivery.Chart.Gate.{gate_self_managed_chart_files-none}
use agent_it.Delivery.Chart.Handover.{
  IsHandedOver, deliver_self_managed_source_pr-IsHandedOver,
  deliver_self_managed_source_pr-hands_over,
}
use agent_it.Examples.{tools}

abbrev chart_tools : ChartTools
chart_tools = record {
  load_hpas = λ _. [];
  hardcoded_namespace = λ text. contains text "namespace: agentit";
  wrong_release_name_suffix = λ text. contains text "}}-agentit";
  release_name_only = λ text. contains text "{{ .Release.Name }}";
  quoted = λ text. text;
}

abbrev hints : Hints
hints = record { uses_rollout = true; has_rwo_workload_pvc = true }

abbrev repository : Repository
repository = some (λ _. some false)

abbrev entry : String → String → Entry
entry target content = record {
  path = some "policy.yaml";
  target_path = some target;
  category = none;
  skill_name = none;
  domain = none;
  description = none;
  content = some content;
  finding_addressed = unaddressed;
  finding_cluster = none;
  companion_layer = none;
  edited = false;
}

abbrev remapped : List Entry
remapped =
    entry "chart/templates/policy.yaml" "namespace: {{ .Release.Namespace }}"
    ∷ entry "chart/templates/raw.yaml" "namespace: agentit"
    ∷ []

gate_self_managed_chart_files-none_example :
    (gate_self_managed_chart_files tools chart_tools hints repository remapped ≡ none)
    ↔ All (IsFit tools chart_tools hints repository) (chart_files remapped)
gate_self_managed_chart_files-none_example =
    gate_self_managed_chart_files-none tools chart_tools hints repository remapped

abbrev raw_reason : String
raw_reason =
    "chart/templates/raw.yaml: raw fleet-style YAML (not Helm-shaped) — "
    ++ₛ "prefer a skills/** markdown improvement, or a curated Helm chart patch"

policy_handed_over :
    deliver_self_managed_source_pr tools chart_tools hints repository remapped
    ≡ handed_over
        (entry "chart/templates/policy.yaml" "namespace: {{ .Release.Namespace }}" ∷ [])
        (raw_reason ∷ [])
unfolding deliver_self_managed_source_pr agent_it.Base.lower contains agent_it.Base.sort_by
    agent_it.Delivery.parse_manifest
policy_handed_over = refl

deliver_self_managed_source_pr-IsHandedOver_example :
    IsHandedOver tools chart_tools hints repository remapped
      (entry "chart/templates/policy.yaml" "namespace: {{ .Release.Namespace }}" ∷ [])
deliver_self_managed_source_pr-IsHandedOver_example =
    deliver_self_managed_source_pr-IsHandedOver tools chart_tools hints repository remapped _ _
      policy_handed_over

-- Of the two files, the first is kept.
one_kept : is_empty (filter_self_managed_delivery_files tools chart_tools hints remapped).0 ≡ false
unfolding filter_self_managed_delivery_files agent_it.Base.lower contains agent_it.Base.sort_by
    agent_it.Delivery.parse_manifest
one_kept = refl

deliver_self_managed_source_pr-hands_over_example :
    deliver_self_managed_source_pr tools chart_tools hints repository remapped
    ≡ handed_over
        (filter_self_managed_delivery_files tools chart_tools hints remapped).0
        (filter_self_managed_delivery_files tools chart_tools hints remapped).1
unfolding agent_it.Base.lower contains
deliver_self_managed_source_pr-hands_over_example =
    deliver_self_managed_source_pr-hands_over tools chart_tools hints repository remapped
      (
        (λ h. (refl, ((λ _. some false), refl, refl))),
        ((λ h. (refl, ((λ _. some false), refl, refl))), tt),
      )
      one_kept

abbrev markdown : Entry
markdown = record (entry "chart/policy.md" "# Policy") {
  path = some "policies/policy.md";
  category = some "security";
}

abbrev same_name : String → String
same_name path = "policy.md"

moved_to_skills :
    map target_of (remap_self_managed_cluster_files tools same_name (markdown ∷ []))
    ≡ "skills/security/policy.md" ∷ []
unfolding remap_self_managed_cluster_files agent_it.Base.lower contains
moved_to_skills = refl
