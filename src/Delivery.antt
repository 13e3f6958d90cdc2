-- ===== src/Delivery.antt =====
-- src/agentit/portal/delivery.py: the taxonomy of generated files, and the mechanism that each
-- category is delivered by. The theorems stand in Delivery/Groups.
mod File
mod Category
pub mod Groups
pub mod Chart
pub mod Route
use agent_it.Base.{
  String, Bool, true, false, ◌&&◌, ◌||◌, not, Option, none, some, List, [], ◌∷◌, any, keep_if,
  is_empty, is_empty_text, is_some, str_eq, contains, lower, replace_char, if◌then◌else◌, collect,
  group_from, remove, get_or, ◌++ₛ◌,
}
pub use File.{
  Addressed, unaddressed, one_text, texts, FileCategory, cluster_config, cicd_shared_namespace,
  source_patch, narrative_report, manifest_at_rest, secret_blocked, Entry, text_of, Manifest,
  Document, mapping, other, Tools,
}
unfoldable pub use File.{parse_manifest}
pub use File.{mappings}
pub use Category.{category_eq}
use text.Mathlib.Text.{starts_with}

-- `_OPERATOR_NAMESPACES` of portal/cluster_apply.py
abbrev operator_namespaces : List String
operator_namespaces =
    "openshift-gitops" ∷ "openshift-operators" ∷ "openshift-pipelines" ∷ "openshift-monitoring"
    ∷ "openshift-logging" ∷ []

abbrev pub is_in : String → List String → Bool
is_in s l = any (λ (t : String). str_eq t s) l

abbrev narrative_report_filenames : List String
narrative_report_filenames = "dependency-report.md" ∷ "cost-report.md" ∷ []

-- A target outside the catalog and the chart is a patch of the application's own repository.
abbrev pub is_app_target : String → Bool
is_app_target target =
    not (is_empty_text target) && not (starts_with target "chart/" || starts_with target "skills/")

-- The categories of a YAML file by its documents.
classify_documents : List Manifest → FileCategory
classify_documents [] = manifest_at_rest
classify_documents docs =
    if any (λ (d : Manifest). str_eq d.kind "Secret") docs
    then secret_blocked
    else if any (λ (d : Manifest). is_in d.namespace operator_namespaces) docs
    then cicd_shared_namespace
    else cluster_config

unfoldable pub classify_file : Tools → Entry → FileCategory
unfolding classify_documents
classify_file tools entry =
    let category = text_of entry.category in
    let path = text_of entry.path in
    let suffix = lower (tools.path_suffix path) in
    if str_eq category "codechange"
    then (if str_eq path "code-changes-summary.md" then narrative_report else source_patch)
    else if is_app_target (text_of entry.target_path)
    then source_patch
    else if (str_eq category "dependency" || str_eq category "cost")
        && is_in path narrative_report_filenames
    then narrative_report
    else if str_eq suffix ".md" && starts_with path "skills/"
    then source_patch
    else if not (str_eq suffix ".yaml" || str_eq suffix ".yml")
    then manifest_at_rest
    else classify_documents (parse_manifest tools (text_of entry.content))

unfoldable pub has_unresolved_placeholders : Tools → Option String → Bool
has_unresolved_placeholders tools content =
    contains (text_of content) "REPLACE_WITH_AGENTIT_IMAGE"
    || tools.placeholder_field (text_of content)

-- `MECHANISM_*`
pub data Mechanism : Type 0 where
  direct_apply infra_repo_commit cluster_admin_review_gate source_repo_pr app_repo_pr no_mechanism :
      Mechanism

unfoldable pub repo_kind_for_mechanism : Mechanism → String
repo_kind_for_mechanism infra_repo_commit = "gitops"
repo_kind_for_mechanism source_repo_pr = "code"
repo_kind_for_mechanism app_repo_pr = "code"
repo_kind_for_mechanism _ = ""

unfoldable pub sanitize_app_name : String → String
sanitize_app_name app_name = replace_char "." "-" (replace_char "_" "-" (lower app_name))

unfoldable pub is_appset_excluded_app : String → Bool
is_appset_excluded_app app_name = str_eq (sanitize_app_name app_name) "agentit"

unfoldable pub resolve_cluster_config_mechanism : Option String → Bool → Mechanism
resolve_cluster_config_mechanism infra_repo_url self_managed =
    if self_managed
    then source_repo_pr
    else if is_some infra_repo_url
    then infra_repo_commit
    else no_mechanism

unfoldable pub gitops_application_name : String → String
gitops_application_name app_name = "managed-" ++ₛ sanitize_app_name app_name

-- The mechanism of a category; `none` where the category reaches no mechanism.
unfoldable pub mechanism_for : Option String → Bool → FileCategory → Option Mechanism
mechanism_for infra self_managed cluster_config =
    some (resolve_cluster_config_mechanism infra self_managed)
mechanism_for infra self_managed cicd_shared_namespace =
    some (resolve_cluster_config_mechanism infra self_managed)
mechanism_for infra self_managed source_patch = some source_repo_pr
mechanism_for infra self_managed manifest_at_rest = some app_repo_pr
mechanism_for infra self_managed narrative_report = none
mechanism_for infra self_managed secret_blocked = none

abbrev pub Groups : Type 0
Groups = List (FileCategory × List Entry)

-- Classify, exclude the blocked and the narrative files.
unfoldable pub deliverable_groups : Tools → List Entry → Groups
deliverable_groups tools files =
    remove narrative_report (remove secret_blocked (group_from (classify_file tools) [] files))

unfoldable pub without_placeholders : Tools → List Entry → List Entry
without_placeholders tools files =
    keep_if (λ (f : Entry). not (has_unresolved_placeholders tools f.content)) files

pub record PreviewGroup : Type 0 where
  pub files : List Entry
  pub mechanism : Mechanism
  pub repo_kind : String

module _ (tools : Tools) (infra_repo_url : Option String) (self_managed : Bool) where
  unfoldable pub preview_mechanism : List Entry → Option Mechanism → Option PreviewGroup
  preview_mechanism keep none = none
  preview_mechanism keep (some m) =
      some (record { files = keep; mechanism = m; repo_kind = repo_kind_for_mechanism m })

  unfoldable pub preview_group : FileCategory → List Entry → Option PreviewGroup
  unfolding preview_mechanism
  preview_group category group_files =
      let keep = without_placeholders tools group_files in
      if is_empty keep
      then none
      else preview_mechanism keep (mechanism_for infra_repo_url self_managed category)

  -- `preview_delivery_groups`, without the `confirmation` texts.
  unfoldable pub preview_delivery_groups : List Entry → List (FileCategory × PreviewGroup)
  preview_delivery_groups files = collect preview_group (deliverable_groups tools files)
