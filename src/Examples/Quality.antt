-- ===== src/Examples/Quality.antt =====
-- The gates of src/agentit/portal/quality_prs.py on concrete findings.
use agent_it.Base.{
  ℕ, String, Bool, true, false, Option, some, none, List, [], ◌∷◌, ◌≡◌, ◌≢◌, ◌↔◌, ◌⊎◌, ◌≤◌, ◌+◌,
  length, inl, inr, refl, All, In, arith,
}
use agent_it.Registry.{FindingKey}
use agent_it.Delivery.{Entry, text_of}
use agent_it.Quality.{filter_files_to_open_findings}
use agent_it.Quality.Match.{file_matches_finding_categories}
use agent_it.Quality.Match.Laws.{IsTied, file_matches_finding_categories-IsTied}
use agent_it.Quality.Tiers.{IsVetted, filter_files_to_open_findings-IsVetted}
use agent_it.Quality.Collisions.{
  find_resource_collisions, IsFresh, seen_keys, keys, iter_resource_docs,
  find_resource_collisions-IsFresh,
}
use agent_it.Quality.Partition.{partition_by_finding_cluster, is_companion}
use agent_it.Quality.Partition.Kept.{in_clusters, partition_by_finding_cluster-keeps}
use agent_it.Base.{total, keep_if, not, str_eq, if◌then◌else◌}
use agent_it.Examples.{tools, policy, batch}

policy_matches :
    file_matches_finding_categories policy ("container" ∷ "network" ∷ []) ≡ some "network"
unfolding file_matches_finding_categories agent_it.Registry.contract_for agent_it.Base.lookup
    agent_it.Registry.normalize
policy_matches = refl

file_matches_finding_categories-IsTied_example :
    IsTied policy ("container" ∷ "network" ∷ []) "network"
file_matches_finding_categories-IsTied_example =
    file_matches_finding_categories-IsTied policy ("container" ∷ "network" ∷ []) "network"
      policy_matches

abbrev findings : List FindingKey
findings = ("container", "latest tag") ∷ ("network", "no policy") ∷ []

abbrev errors : List String
errors = "bad field" ∷ []

abbrev no_texts : List String
no_texts = []

abbrev in_source : List FindingKey
in_source = ("container", "latest tag") ∷ []

filter_files_to_open_findings-IsVetted_example :
    All (IsVetted tools findings batch) (filter_files_to_open_findings tools findings batch).0
    × (length (filter_files_to_open_findings tools findings batch).0
          + length (filter_files_to_open_findings tools findings batch).1
        ≡ length batch)
filter_files_to_open_findings-IsVetted_example =
    filter_files_to_open_findings-IsVetted tools findings batch

find_resource_collisions-IsFresh_example :
    (find_resource_collisions tools batch (policy ∷ []) ≡ [])
    ↔ IsFresh
        (seen_keys [] (iter_resource_docs tools (policy ∷ [])))
        (keys (iter_resource_docs tools batch))
find_resource_collisions-IsFresh_example =
    find_resource_collisions-IsFresh tools batch (policy ∷ [])

-- The files that come from the containerfile skill.
abbrev weight : Entry → ℕ
weight f = if str_eq (text_of f.skill_name) "containerfile" then 1 else 0

partition_by_finding_cluster-keeps_example :
    (total weight (keep_if (λ (f : Entry). not (is_companion f)) batch)
      ≤ in_clusters weight (partition_by_finding_cluster tools batch findings 2))
    × (in_clusters weight (partition_by_finding_cluster tools batch findings 2)
        ≤ total weight batch)
partition_by_finding_cluster-keeps_example =
    partition_by_finding_cluster-keeps tools 2 (omega arith) weight batch findings
