-- ===== src/Registry/Coherence.antt =====
-- The solution contracts are coherent, and `lookup` agrees with `FIX_REGISTRY`.
use agent_it.Base.{
  String, Option, none, some, List, [], ◌∷◌, ◌≡◌, refl, Bool, true, false, ◌&&◌, not, str_eq, any,
  all, ap, all-In, is_empty, if◌then◌else◌, arith, lookup as dict_get, lookup-In, string_eq, ◌↔◌,
  ◌≢◌, sym, map, keep_if, eq_iff,
}
use agent_it.Registry.{normalize, normalize_idem, contract_for, lookup}
use agent_it.Registry.Contract.{
  SolutionContract, Delivery, nowhere, EvidenceKind, detect_only, cluster_kind, selector_target,
}
use agent_it.Registry.Table.{solution_contracts, fix_registry}

abbrev is_nowhere : Delivery → Bool
is_nowhere nowhere = true
is_nowhere _ = false

abbrev is_detect_only : EvidenceKind → Bool
is_detect_only detect_only = true
is_detect_only _ = false

abbrev pub wants_kinds : EvidenceKind → Bool
wants_kinds cluster_kind = true
wants_kinds selector_target = true
wants_kinds _ = false

abbrev same : Bool → Bool → Bool
same true b = b
same false b = not b

-- What the fields of one contract must agree on.
abbrev coherent : SolutionContract → Bool
coherent c =
    same c.auto_pr (not (is_nowhere c.delivery))
    && same c.auto_pr (not (is_detect_only c.evidence_kind))
    && not (any (λ (s : String). str_eq s c.skill_name) c.refuse_companions)
    && same (wants_kinds c.evidence_kind) (not (is_empty c.evidence_params))

table_coherent : all (λ (kc : String × SolutionContract). coherent kc.1) solution_contracts ≡ true
table_coherent = refl

-- The coherence of a contract as a statement.
pub record IsCoherent (c : SolutionContract) : Type 0 where
  pub opens_prs : (c.auto_pr ≡ true) ↔ (c.delivery ≢ nowhere)
  pub detects_only : (c.auto_pr ≡ false) ↔ (c.evidence_kind ≡ detect_only)
  pub keeps_own_skill : any (λ (s : String). str_eq s c.skill_name) c.refuse_companions ≡ false
  pub names_kinds : wants_kinds c.evidence_kind ≡ true → is_empty c.evidence_params ≡ false

coherent→IsCoherent : (c : SolutionContract) → coherent c ≡ true → IsCoherent c
coherent→IsCoherent c h = ground arith

-- Every finding category that has a contract has a coherent one: a pull request may be opened for it
-- exactly when it has a delivery surface, it is detect-only exactly when no pull request may be
-- opened, its own clearing skill is not among the companions that it refuses, and its evidence
-- names Kubernetes kinds where the kind of evidence needs them.
pub contract_for-IsCoherent :
    (category : String) (c : SolutionContract) → contract_for category ≡ some c → IsCoherent c
unfolding contract_for
contract_for-IsCoherent category c h = coherent→IsCoherent c (
    all-In (λ (kc : String × SolutionContract). coherent kc.1) (normalize category, c)
      solution_contracts table_coherent (lookup-In (normalize category) c solution_contracts h))

abbrev Rows : Type 0
Rows = List (String × SolutionContract)

abbrev has_key : String → Rows → Bool
has_key k d = any (λ (kc : String × SolutionContract). str_eq kc.0 k) d

abbrev distinct_keys : Rows → Bool
distinct_keys [] = true
distinct_keys ((k, c) ∷ d) = not (has_key k d) && distinct_keys d

abbrev fixes : Rows → List (String × (String × String))
fixes d =
    map (λ ((key, c) : String × SolutionContract). (key, (c.domain, c.skill_name)))
      (keep_if (λ (kc : String × SolutionContract). kc.1.auto_pr) d)

abbrev fix_of : Option SolutionContract → Option (String × String)
fix_of none = none
fix_of (some c) = if not c.auto_pr then none else some (c.domain, c.skill_name)

get-fixes_absent : (k : String) (d : Rows) → has_key k d ≡ false → dict_get k (fixes d) ≡ none
unfolding dict_get
get-fixes_absent k [] h = refl
get-fixes_absent k ((j, c) ∷ d) h = ground (arith, get-fixes_absent k d)

get-fixes :
    (k : String) (d : Rows) → distinct_keys d ≡ true → dict_get k (fixes d) ≡ fix_of (dict_get k d)
unfolding dict_get
get-fixes k [] h = refl
get-fixes k ((j, c) ∷ d) h = ground (arith, get-fixes k d, get-fixes_absent k d, eq_iff j k)

-- `lookup` finds in the contracts what the derived table `FIX_REGISTRY` holds under the normalized
-- category, for every category.
pub lookup-fix_registry :
    (category : String) → lookup category ≡ dict_get (normalize category) fix_registry
unfolding lookup contract_for
lookup-fix_registry category = sym (get-fixes (normalize category) solution_contracts refl)

-- A category and its normalized form have the same contract.
pub contract_for-normalize :
    (category : String) → contract_for (normalize category) ≡ contract_for category
unfolding contract_for
contract_for-normalize category =
    ap (λ (k : String). dict_get k solution_contracts) (normalize_idem category)
