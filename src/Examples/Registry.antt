-- ===== src/Examples/Registry.antt =====
-- Contracts of concrete categories of src/agentit/remediation/registry.py.
use agent_it.Base.{some, [], ◌∷◌, ◌≡◌, refl, lookup as dict_get, string_eq, true}
use agent_it.Registry.{normalize, contract_for}
use agent_it.Registry.Contract.{SolutionContract, contract, cluster, cluster_kind}

abbrev network : SolutionContract
network =
    contract "security" "network-policy" cluster
      "applying a NetworkPolicy that isolates the workload" cluster_kind [] true
      ("NetworkPolicy" ∷ [])

network_found : contract_for "Network" ≡ some network
unfolding contract_for dict_get normalize
network_found = refl
