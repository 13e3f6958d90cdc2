-- ===== src/Quality/Partition/Kept.antt =====
-- The files of the clusters.
use agent_it.Base.{
  ℕ, zero, suc, ◌+◌, ◌≤◌, String, Bool, ◌&&◌, not, List, [], ◌∷◌, ◌++◌, ◌≡◌, refl, ap, arith, ltb,
  length, take, drop, take-append-drop, length-drop, Bool-cases, inl, inr, total, total-sort_by,
  keep_if, Eq, string_eq, lookup, insert, get_or, group_from, members, append_to,
}
use agent_it.Registry.{FindingKey}
use agent_it.Delivery.{Tools, Entry, FileCategory, category_eq}
use agent_it.Quality.Partition.{
  FindingCluster, cluster, chunks_from, clusters_of, has_layer, first_layer, attach, attach_all,
  attach_layers, tier1_groups, companion_groups, is_companion, cluster_key, layer_of,
  partition_by_finding_cluster,
}

module _ {A : Type 0} (g : A → ℕ) where
  total-append : (xs ys : List A) → total g (xs ++ ys) ≡ total g xs + total g ys
  total-append [] ys = omega arith
  total-append (x ∷ xs) ys = omega (arith, total-append xs ys)

  total-keep_if :
      (p : A → Bool) (xs : List A)
      → total g (keep_if p xs) + total g (keep_if (λ (a : A). not (p a)) xs) ≡ total g xs
  total-keep_if p [] = refl
  total-keep_if p (x ∷ xs) = ground (arith, total-keep_if p xs)

  -- A group counts as its elements.
  abbrev in_groups : {K : Type 0} → List (K × List A) → ℕ
  in_groups {K} d = total (λ (kv : K × List A). total g kv.1) d

  in_groups-insert :
      {K : Type 0} ⦃e : Eq K⦄ (k : K) (v : List A) (d : List (K × List A))
      → in_groups (insert k v d) + total g (get_or [] (lookup k d)) ≡ in_groups d + total g v
  unfolding insert lookup
  in_groups-insert k v [] = omega arith
  in_groups-insert ⦃e⦄ k v ((j, w) ∷ d) = ground (arith, in_groups-insert k v d)

  in_groups-group_from :
      {K : Type 0} ⦃e : Eq K⦄ (f : A → K) (d : List (K × List A)) (xs : List A)
      → in_groups (group_from f d xs) ≡ in_groups d + total g xs
  unfolding group_from
  in_groups-group_from f d [] = omega arith
  in_groups-group_from f d (x ∷ xs) = omega (
    arith,
    in_groups-group_from f (append_to f x d) xs,
    in_groups-insert (f x) (members f (f x) d ++ x ∷ []) d,
    total-append (members f (f x) d) (x ∷ []),
  )

-- The files of all clusters.
abbrev pub in_clusters : (Entry → ℕ) → List FindingCluster → ℕ
in_clusters g cs = total (λ (c : FindingCluster). total g c.files) cs

module _ (tools : Tools) (max_files : ℕ) (positive : 1 ≤ max_files) (g : Entry → ℕ) where
  in_clusters-append :
      (cs ds : List FindingCluster) → in_clusters g (cs ++ ds) ≡ in_clusters g cs + in_clusters g ds
  in_clusters-append cs ds = total-append (λ (c : FindingCluster). total g c.files) cs ds

  in_clusters-chunks_from :
      (fuel : ℕ) (fs : List FindingKey) (key : String) (i : ℕ) (files : List Entry)
      → length files ≤ fuel
      → in_clusters g (chunks_from fuel max_files fs key i files) ≡ total g files
  unfolding chunks_from cluster
  in_clusters-chunks_from zero fs key i [] h = refl
  in_clusters-chunks_from zero fs key i (f ∷ files) h = absurd (omega arith)
  in_clusters-chunks_from (suc fuel) fs key i [] h = refl
  in_clusters-chunks_from (suc fuel) fs key i (f ∷ files) h =
      let shorter : length (drop max_files (f ∷ files)) ≤ fuel =
        omega (arith, length-drop max_files (f ∷ files)) in
      omega (
        arith,
        in_clusters-chunks_from fuel fs key (i + 1) (drop max_files (f ∷ files)) shorter,
        total-append g (take max_files (f ∷ files)) (drop max_files (f ∷ files)),
        ap (total g) (take-append-drop max_files (f ∷ files)),
      )

  in_clusters-clusters_of :
      (fs : List FindingKey) (groups : List (String × List Entry))
      → in_clusters g (clusters_of max_files fs groups) ≡ in_groups g groups
  unfolding clusters_of
  in_clusters-clusters_of fs [] = refl
  in_clusters-clusters_of fs ((key, files) ∷ groups) = omega (
    arith,
    in_clusters-clusters_of fs groups,
    in_clusters-chunks_from (length files) fs key 0 files (omega arith),
    in_clusters-append (chunks_from (length files) max_files fs key 0 files)
        (clusters_of max_files fs groups),
  )

  -- What attaching companions adds is at most the companions.
  abbrev IsBetween : ℕ → List FindingCluster → List FindingCluster → Type 0
  IsBetween n cs ds =
      (in_clusters g cs ≤ in_clusters g ds) × (in_clusters g ds ≤ in_clusters g cs + n)

  attach-IsBetween :
      (layer : FileCategory) (comp : Entry) (cs : List FindingCluster)
      → IsBetween (g comp) cs (attach tools max_files layer comp cs)
  unfolding attach
  attach-IsBetween layer comp [] = (omega arith, omega arith)
  attach-IsBetween layer comp (c ∷ cs) =
      elim (Bool-cases
        (has_layer layer (first_layer tools c.files) && ltb (length c.files) max_files)) [
          | inl fits ↦ rw fits (
            omega (arith, total-append g c.files (comp ∷ [])),
            omega (arith, total-append g c.files (comp ∷ [])),
          )
          | inr other ↦
              let ih = attach-IsBetween layer comp cs in
              rw other (omega (arith, ih.0), omega (arith, ih.1))
        ]

  attach_all-IsBetween :
      (layer : FileCategory) (comps : List Entry) (cs : List FindingCluster)
      → IsBetween (total g comps) cs (attach_all tools max_files layer comps cs)
  unfolding attach_all
  attach_all-IsBetween layer [] cs = (omega arith, omega arith)
  attach_all-IsBetween layer (comp ∷ comps) cs =
      let one = attach-IsBetween layer comp cs in
      let rest = attach_all-IsBetween layer comps (attach tools max_files layer comp cs) in
      (omega (arith, one.0, rest.0), omega (arith, one.1, rest.1))

  attach_layers-IsBetween :
      (groups : List (FileCategory × List Entry)) (cs : List FindingCluster)
      → IsBetween (in_groups g groups) cs (attach_layers tools max_files groups cs)
  unfolding attach_layers
  attach_layers-IsBetween [] cs = (omega arith, omega arith)
  attach_layers-IsBetween ((layer, comps) ∷ groups) cs =
      let one = attach_all-IsBetween layer comps cs in
      let rest = attach_layers-IsBetween groups (attach_all tools max_files layer comps cs) in
      (omega (arith, one.0, rest.0), omega (arith, one.1, rest.1))

  -- Whatever weight each file has, the files of the clusters of a partition weigh at least as much
  -- as all fixes, and at most as much as all files, so that no fix is lost and no file is doubled;
  -- `max_files` is positive.
  pub partition_by_finding_cluster-keeps :
      (files : List Entry) (fs : List FindingKey)
      → (total g (keep_if (λ (f : Entry). not (is_companion f)) files)
          ≤ in_clusters g (partition_by_finding_cluster tools files fs max_files))
        × (in_clusters g (partition_by_finding_cluster tools files fs max_files) ≤ total g files)
  unfolding partition_by_finding_cluster tier1_groups companion_groups
  partition_by_finding_cluster-keeps files fs =
      let fixes = in_clusters-clusters_of fs (tier1_groups files) in
      let between =
        attach_layers-IsBetween (companion_groups files)
          (clusters_of max_files fs (tier1_groups files)) in
      let grouped =
        in_groups-group_from g cluster_key []
          (keep_if (λ (f : Entry). not (is_companion f)) files) in
      let sorted =
        total-sort_by (λ (kv : String × List Entry). kv.0)
          (λ (kv : String × List Entry). total g kv.1)
          (group_from cluster_key [] (keep_if (λ (f : Entry). not (is_companion f)) files)) in
      let companions = in_groups-group_from g layer_of [] (keep_if is_companion files) in
      let both = total-keep_if g is_companion files in
      (
        omega (arith, fixes, between.0, grouped, sorted),
        omega (arith, fixes, between.1, grouped, sorted, companions, both),
      )
