-- ===== src/Quality/Partition.antt =====
-- `partition_by_finding_cluster` and `_attach_companions_to_clusters` of portal/quality_prs.py.
pub mod Sizes
pub mod Kept
use agent_it.Base.{
  ℕ, zero, suc, ◌+◌, String, Bool, true, false, ◌&&◌, not, Option, none, some, List, [], ◌∷◌, ◌++◌,
  ltb, length, take, drop, keep_if, is_empty, is_some, if◌then◌else◌, lookup, get_or, group_from,
  sort_by, string_eq, ◌++ₛ◌, show, slug, max,
}
use agent_it.Registry.{normalize, FindingKey, or_text}
use agent_it.Delivery.{Tools, Entry, text_of, FileCategory, category_eq, classify_file}
use agent_it.Quality.Match.{categories_overlap}

pub record FindingCluster : Type 0 where
  pub key : String
  pub files : List Entry
  pub target_findings : List FindingKey
  pub branch_suffix : String

-- `f.get("_finding_cluster") or f.get("category") or "misc"`
abbrev pub cluster_key : Entry → String
cluster_key f = or_text (text_of f.finding_cluster) (or_text (text_of f.category) "misc")

abbrev or_findings : List FindingKey → List FindingKey → List FindingKey
or_findings [] other = other
or_findings fs other = fs

cluster_findings : List FindingKey → String → List FindingKey
cluster_findings target_findings key =
    let by_cat = group_from (λ (f : FindingKey). normalize f.0) [] target_findings in
    or_findings (get_or [] (lookup (normalize key) by_cat)) (
      or_findings (keep_if (λ (f : FindingKey). categories_overlap f.0 key) target_findings)
        target_findings)

-- The name of the chunk with index `i`.
abbrev nth : String → String → ℕ → String
nth base mark zero = base
nth base mark (suc i) = base ++ₛ mark ++ₛ show (suc i + 1)

cluster : List FindingKey → String → ℕ → List Entry → FindingCluster
unfolding cluster_findings
cluster target_findings key i chunk =
    let safe = or_text (slug key) "cluster" in
    record {
      key = nth key "#" i;
      files = chunk;
      target_findings = cluster_findings target_findings key;
      branch_suffix = nth safe "-" i;
    }

-- The chunks of one key, of `max_files` files and a last one that may be shorter. The fuel is the
-- number of files.
unfoldable pub chunks_from : ℕ → ℕ → List FindingKey → String → ℕ → List Entry → List FindingCluster
unfolding cluster
chunks_from zero max_files target_findings key i files = []
chunks_from (suc fuel) max_files target_findings key i [] = []
chunks_from (suc fuel) max_files target_findings key i (f ∷ files) =
    cluster target_findings key i (take max_files (f ∷ files))
    ∷ chunks_from fuel max_files target_findings key (i + 1) (drop max_files (f ∷ files))

unfoldable pub clusters_of : ℕ → List FindingKey → List (String × List Entry) → List FindingCluster
unfolding chunks_from
clusters_of max_files target_findings [] = []
clusters_of max_files target_findings ((key, files) ∷ groups) =
    chunks_from (length files) max_files target_findings key 0 files
    ++ clusters_of max_files target_findings groups

abbrev pub is_companion : Entry → Bool
is_companion f = is_some f.companion_layer

abbrev first_layer : Tools → List Entry → Option FileCategory
first_layer tools [] = none
first_layer tools (f ∷ files) = some (classify_file tools f)

abbrev has_layer : FileCategory → Option FileCategory → Bool
has_layer layer none = false
has_layer layer (some c) = category_eq.beq c layer

-- A companion goes to the first cluster of its layer that has room, and else nowhere. The first file of
-- a cluster, which gives its layer, stays.
unfoldable pub attach : Tools → ℕ → FileCategory → Entry → List FindingCluster → List FindingCluster
attach tools max_files layer comp [] = []
attach tools max_files layer comp (c ∷ clusters) =
    let rest = attach tools max_files layer comp clusters in
    if has_layer layer (first_layer tools c.files) && ltb (length c.files) max_files
    then record c { files = c.files ++ (comp ∷ []) } ∷ clusters
    else c ∷ rest

unfoldable pub attach_all :
    Tools → ℕ → FileCategory → List Entry → List FindingCluster → List FindingCluster
unfolding attach
attach_all tools max_files layer [] clusters = clusters
attach_all tools max_files layer (comp ∷ comps) clusters =
    attach_all tools max_files layer comps (attach tools max_files layer comp clusters)

-- The layers in the order in which they first appear.
unfoldable pub attach_layers :
    Tools → ℕ → List (FileCategory × List Entry) → List FindingCluster → List FindingCluster
unfolding attach_all
attach_layers tools max_files [] clusters = clusters
attach_layers tools max_files ((layer, comps) ∷ rest) clusters =
    attach_layers tools max_files rest (attach_all tools max_files layer comps clusters)

abbrev pub layer_of : Entry → FileCategory
layer_of f = get_or FileCategory.manifest_at_rest f.companion_layer

unfoldable pub tier1_groups : List Entry → List (String × List Entry)
tier1_groups files =
    sort_by (λ (g : String × List Entry). g.0)
      (group_from cluster_key [] (keep_if (λ (f : Entry). not (is_companion f)) files))

unfoldable pub companion_groups : List Entry → List (FileCategory × List Entry)
companion_groups files = group_from layer_of [] (keep_if is_companion files)

-- The source divides by `max_files`, so it is positive.
unfoldable pub partition_by_finding_cluster :
    Tools → List Entry → List FindingKey → ℕ → List FindingCluster
unfolding clusters_of attach_layers tier1_groups companion_groups
partition_by_finding_cluster tools files target_findings max_files =
    attach_layers tools max_files (companion_groups files)
      (clusters_of max_files target_findings (tier1_groups files))
