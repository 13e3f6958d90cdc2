-- ===== src/Registry/Table.antt =====
-- `SOLUTION_CONTRACTS` and `FIX_REGISTRY` of remediation/registry.py.
mod First
mod Middle
mod Last
use agent_it.Base.{String, List, [], ◌∷◌, ◌++◌, map, keep_if}
use agent_it.Registry.Contract.{SolutionContract}
use First.{first_contracts}
use Middle.{middle_contracts}
use Last.{last_contracts}

abbrev pub solution_contracts : List (String × SolutionContract)
solution_contracts = first_contracts ++ (middle_contracts ++ last_contracts)

-- `{key: (c.domain, c.skill_name) for key, c in … if c.auto_pr}`
abbrev pub fix_registry : List (String × (String × String))
fix_registry =
    map (λ ((key, c) : String × SolutionContract). (key, (c.domain, c.skill_name)))
      (keep_if (λ (kc : String × SolutionContract). kc.1.auto_pr) solution_contracts)
