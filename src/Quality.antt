-- ===== src/Quality.antt =====
-- src/agentit/portal/quality_prs.py: which files a Scan pull request may carry. The gates and the two
-- tiers of files stand here; the matching of files with findings in Quality/Match, the clusters in
-- Quality/Partition, and the collisions of resources in Quality/Collisions.
pub mod Match
pub mod Gate
pub mod Tiers
pub mod Collisions
pub mod Partition
use agent_it.Base.{
  ℕ, String, Bool, true, false, ◌&&◌, ◌||◌, not, Option, none, some, List, [], ◌∷◌, ◌++◌, map, any,
  all, keep_if, is_empty, is_empty_text, is_some, str_eq, leb, if◌then◌else◌, lookup, insert,
  get_or, ◌++ₛ◌, join, sort_by, string_eq, take,
}
use agent_it.Registry.{
  normalize, FindingKey, contract_for, allows_auto_pr, remediable_findings, clears_via_source,
  or_text,
}
use agent_it.Registry.Lines.{distinct}
use agent_it.Delivery.{
  Tools, Entry, text_of, FileCategory, cluster_config, cicd_shared_namespace, narrative_report,
  secret_blocked, classify_file,
}
use Match.{skill_of, refused_by, file_matches_finding_categories, or_else}

-- A claimed score delta is its absolute value, in the unit of the threshold.
pub finding_gate_allows_pr : List FindingKey → Option ℕ → ℕ → Bool
finding_gate_allows_pr target_findings score_delta_claimed min_score_delta =
    if not (is_empty (remediable_findings target_findings))
    then true
    else elim score_delta_claimed [ none ↦ false | some delta ↦ leb min_score_delta delta ]

-- The categories that a refusal names.
abbrev blocked_categories : List FindingKey → List String
blocked_categories fs = distinct (
    map (λ (f : FindingKey). f.0)
      (keep_if (λ (f : FindingKey). not (is_empty_text f.0) && not (allows_auto_pr f.0)) fs))

blocked_reason : List FindingKey → String
blocked_reason fs =
    "Open findings are detect_only / no_auto_pr / uncontracted — refusing PR ("
    ++ₛ (or_text (join ", " (sort_by (λ (c : String). c) (blocked_categories fs))) "none"
        ++ₛ "). Add a remediating SOLUTION_CONTRACT or leave as detect-only.")

abbrev no_findings_reason : String
no_findings_reason =
    "No open findings / score delta — refusing to open a PR (catalog dumps are not helpful; see docs/plan-quality-helpful-prs.md Phase A)."

-- `finding_gate_refuse_reason`: the empty text where the gate lets a pull request open.
pub finding_gate_refuse_reason : List FindingKey → String
finding_gate_refuse_reason target_findings =
    if not (is_empty (remediable_findings target_findings))
    then ""
    else if not (is_empty target_findings)
    then blocked_reason target_findings
    else no_findings_reason

is_explicitly_refused_companion : Entry → List String → Bool
is_explicitly_refused_companion file finding_cats =
    let skill = skill_of file in not (is_empty_text skill) && any (refused_by skill) finding_cats

-- The categories that never ride along are `_COMPANION_INELIGIBLE_CATEGORIES`.
abbrev eligible_layer : FileCategory → Option FileCategory
eligible_layer narrative_report = none
eligible_layer secret_blocked = none
eligible_layer c = some c

-- `none` for a file that is never a companion.
companion_layer : Tools → Entry → List String → Option FileCategory
unfolding is_explicitly_refused_companion
companion_layer tools file finding_cats =
    if is_explicitly_refused_companion file finding_cats
    then none
    else eligible_layer (classify_file tools file)

-- `{normalize_category(c) for c, _ in target_findings if c}`
abbrev pub finding_categories_of : List FindingKey → List String
finding_categories_of fs =
    map (λ (f : FindingKey). normalize f.0)
      (keep_if (λ (f : FindingKey). not (is_empty_text f.0)) fs)

-- `display_cats.setdefault(normalize_category(c), c)` for each finding
display_from : List (String × String) → List FindingKey → List (String × String)
display_from d [] = d
display_from d ((c, _) ∷ rest) =
    display_from (if is_some (lookup (normalize c) d) then d else insert (normalize c) c d) rest

-- `f.get("path") or f.get("target_path") or "?"`
abbrev pub shown_path : Entry → String
shown_path f = or_else f.path (or_else f.target_path "?")

-- What becomes of one file: it is kept, as a fix or as a companion, or dropped for a reason.
pub data Tier : Type 0 where
  fix : Entry → Tier
  companion : Entry → Tier
  dropped : String → Tier

tier_of_layer : List (String × String) → Entry → Option FileCategory → Tier
tier_of_layer display f none = dropped (
    shown_path f
    ++ₛ ": not tied to an open finding ("
    ++ₛ or_text
        (join ", " (sort_by (λ (c : String). c) (map (λ (e : String × String). e.1) display)))
        "none"
    ++ₛ ")")
tier_of_layer display f (some layer) = companion (record f { companion_layer = some layer })

tier_of_match : Tools → List FindingKey → Entry → Option String → Tier
unfolding tier_of_layer
tier_of_match tools fs f none =
    tier_of_layer (display_from [] fs) f (companion_layer tools f (finding_categories_of fs))
tier_of_match tools fs f (some matched) =
    fix (record f { finding_cluster = some (get_or matched (lookup matched (display_from [] fs))) })

-- The body of the loop of `filter_files_to_open_findings`.
tier_of : Tools → List FindingKey → Entry → Tier
unfolding tier_of_match
tier_of tools fs f =
    tier_of_match tools fs f (file_matches_finding_categories f (finding_categories_of fs))

abbrev keep_tier : Tier → List Entry × List String → List Entry × List String
keep_tier (fix f) (kept, reasons) = (f ∷ kept, reasons)
keep_tier (companion f) (kept, reasons) = (f ∷ kept, reasons)
keep_tier (dropped why) (kept, reasons) = (kept, why ∷ reasons)

pub filter_files_to_open_findings : Tools → List FindingKey → List Entry → List Entry × List String
unfolding tier_of
filter_files_to_open_findings tools fs [] = ([], [])
filter_files_to_open_findings tools fs (f ∷ rest) =
    keep_tier (tier_of tools fs f) (filter_files_to_open_findings tools fs rest)

-- `cluster_validation_ok`: the first of the three lists that is not empty refuses the cluster.
pub cluster_validation_ok : List String → List String → List String → Bool × String
cluster_validation_ok dry_run_errors failed_properties collisions =
    if not (is_empty collisions)
    then (false, "Resource collision: " ++ₛ join "; " (take 5 collisions))
    else if not (is_empty dry_run_errors)
    then (false, "SSA/dry-run failed: " ++ₛ join "; " (take 5 dry_run_errors))
    else if not (is_empty failed_properties)
    then (false, "Property check failed for targeted findings: " ++ₛ join ", " failed_properties)
    else (true, "")

abbrev is_gitops_layer : FileCategory → Bool
is_gitops_layer cluster_config = true
is_gitops_layer cicd_shared_namespace = true
is_gitops_layer _ = false

abbrev pub skill_texts : List String → List String
skill_texts [] = []
skill_texts (c ∷ cs) = elim (contract_for c) [
  | none ↦ skill_texts cs
  | some k ↦ k.skill_name ∷ skill_texts cs
]

abbrev is_companion : Entry → Bool
is_companion f = is_some f.companion_layer

-- Whether `strip_wrong_layer_companions` keeps a file, where all findings clear in the source.
keeps_in_source : Tools → List String → Entry → Bool
keeps_in_source tools allowed_skills f =
    let skill = text_of f.skill_name in
    if is_gitops_layer (classify_file tools f)
    then false
    else not (
        not (is_companion f)
        && not (is_empty_text skill)
        && not (is_empty allowed_skills)
        && not (any (λ (s : String). str_eq s skill) allowed_skills))

-- `strip_wrong_layer_companions`: the files that it keeps.
unfoldable pub strip_wrong_layer_companions : Tools → List Entry → List FindingKey → List Entry
unfolding keeps_in_source
strip_wrong_layer_companions tools files fs =
    let cats =
      map (λ (f : FindingKey). f.0) (keep_if (λ (f : FindingKey). not (is_empty_text f.0)) fs) in
    if is_empty cats || not (all clears_via_source cats)
    then files
    else keep_if (keeps_in_source tools (skill_texts cats)) files
