-- ===== src/Quality/Partition/Sizes.antt =====
-- The size of the clusters.
use agent_it.Base.{
  ℕ, zero, suc, ◌+◌, ◌≤◌, ◌<◌, String, ◌&&◌, List, [], ◌∷◌, arith, ltb, length, take, drop,
  length-take-le, length-append, All, All-append, Bool-cases, inl, inr, and_true, ltb→lt,
}
use agent_it.Registry.{FindingKey}
use agent_it.Delivery.{Tools, Entry, FileCategory}
use agent_it.Quality.Partition.{
  FindingCluster, cluster, chunks_from, clusters_of, has_layer, first_layer, attach, attach_all,
  attach_layers, tier1_groups, companion_groups, partition_by_finding_cluster,
}

-- A cluster has a file, and not more than `max_files`.
abbrev pub IsSized : ℕ → FindingCluster → Type 0
IsSized max_files c = (1 ≤ length c.files) × (length c.files ≤ max_files)

take-nonempty : (n : ℕ) (f : Entry) (fs : List Entry) → 1 ≤ n → 1 ≤ length (take n (f ∷ fs))
take-nonempty zero f fs h = absurd (omega arith)
take-nonempty (suc n) f fs h = omega arith

module _ (tools : Tools) (max_files : ℕ) (positive : 1 ≤ max_files) where
  chunks_from-IsSized :
      (fuel : ℕ) (fs : List FindingKey) (key : String) (i : ℕ) (files : List Entry)
      → All (IsSized max_files) (chunks_from fuel max_files fs key i files)
  unfolding chunks_from cluster
  chunks_from-IsSized zero fs key i files = tt
  chunks_from-IsSized (suc fuel) fs key i [] = tt
  chunks_from-IsSized (suc fuel) fs key i (f ∷ files) = (
    (take-nonempty max_files f files positive, length-take-le max_files (f ∷ files)),
    chunks_from-IsSized fuel fs key (i + 1) (drop max_files (f ∷ files)),
  )

  clusters_of-IsSized :
      (fs : List FindingKey) (groups : List (String × List Entry))
      → All (IsSized max_files) (clusters_of max_files fs groups)
  unfolding clusters_of
  clusters_of-IsSized fs [] = tt
  clusters_of-IsSized fs ((key, files) ∷ groups) =
      All-append (IsSized max_files) _ _ (chunks_from-IsSized (length files) fs key 0 files)
        (clusters_of-IsSized fs groups)

  attach-IsSized :
      (layer : FileCategory) (comp : Entry) (cs : List FindingCluster)
      → All (IsSized max_files) cs
      → All (IsSized max_files) (attach tools max_files layer comp cs)
  unfolding attach
  attach-IsSized layer comp [] h = tt
  attach-IsSized layer comp (c ∷ cs) (h, hs) =
      elim (Bool-cases
        (has_layer layer (first_layer tools c.files) && ltb (length c.files) max_files)) [
          | inl fits ↦
              let room : length c.files < max_files =
                ltb→lt (length c.files) max_files
                  (and_true (has_layer layer (first_layer tools c.files)) _ fits).1 in
              rw fits (
                (
                  omega (arith, length-append c.files (comp ∷ [])),
                  omega (arith, length-append c.files (comp ∷ [])),
                ),
                hs,
              )
          | inr other ↦ rw other (h, attach-IsSized layer comp cs hs)
        ]

  attach_all-IsSized :
      (layer : FileCategory) (comps : List Entry) (cs : List FindingCluster)
      → All (IsSized max_files) cs
      → All (IsSized max_files) (attach_all tools max_files layer comps cs)
  unfolding attach_all
  attach_all-IsSized layer [] cs h = h
  attach_all-IsSized layer (comp ∷ comps) cs h =
      attach_all-IsSized layer comps _ (attach-IsSized layer comp cs h)

  attach_layers-IsSized :
      (groups : List (FileCategory × List Entry)) (cs : List FindingCluster)
      → All (IsSized max_files) cs
      → All (IsSized max_files) (attach_layers tools max_files groups cs)
  unfolding attach_layers
  attach_layers-IsSized [] cs h = h
  attach_layers-IsSized ((layer, comps) ∷ groups) cs h =
      attach_layers-IsSized groups _ (attach_all-IsSized layer comps cs h)

  -- Every cluster of a partition, with its companions, has at least one file and at most `max_files`,
  -- which is positive.
  pub partition_by_finding_cluster-IsSized :
      (files : List Entry) (fs : List FindingKey)
      → All (IsSized max_files) (partition_by_finding_cluster tools files fs max_files)
  unfolding partition_by_finding_cluster
  partition_by_finding_cluster-IsSized files fs =
      attach_layers-IsSized (companion_groups files) _ (clusters_of-IsSized fs (tier1_groups files))
