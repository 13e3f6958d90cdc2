-- ===== src/Delivery/Route/Origin.antt =====
-- Where the files that `route_and_deliver` hands to a mechanism come from.
use text.Mathlib.Text.{starts_with}
use agent_it.Base.{
  inl, inr, sym, lower, is_empty, String, Bool, true, false, ◌&&◌, ◌||◌, not, Option, List, [], ◌∷◌,
  ◌≡◌, refl, ap, ◌∙◌, subst, if◌then◌else◌, any, str_eq, lookup, get_or, arith, All, All-of_In, In,
  In-of_keep_if, ◌⊎◌,
}
use agent_it.Delivery.{
  FileCategory, cluster_config, cicd_shared_namespace, source_patch, narrative_report,
  manifest_at_rest, secret_blocked, Entry, Tools, Manifest, text_of, parse_manifest, classify_file,
  classify_documents, is_app_target, is_in, narrative_report_filenames, deliverable_groups,
  without_placeholders, has_unresolved_placeholders, category_eq,
}
use agent_it.Delivery.Category.{same_category}
use agent_it.Delivery.Groups.{of_category, is_deliverable, members-deliverable_groups}
use agent_it.Delivery.Chart.Remap.{
  retargeted, remap_self_managed_cluster_files-keeps, remap_self_managed_cicd_files-keeps,
}
use agent_it.Delivery.Route.{World, files_for, remapped}

abbrev pub is_secret : Manifest → Bool
is_secret d = str_eq d.kind "Secret"

abbrev pub has_secret : Tools → Entry → Bool
unfolding parse_manifest
has_secret tools f = any is_secret (parse_manifest tools (text_of f.content))

-- The two categories of cluster manifests.
abbrev pub IsCluster : FileCategory → Type 0
IsCluster c = (c ≡ cluster_config) ⊎ (c ≡ cicd_shared_namespace)

-- A file of the batch that has the category and no placeholder, but for its target.
abbrev pub IsFrom : World → List Entry → FileCategory → Entry → Type 0
unfolding classify_file has_unresolved_placeholders
IsFrom w files c g =
    (f : Entry) × In f files
    × (classify_file w.tools f ≡ c)
    × (has_unresolved_placeholders w.tools f.content ≡ false)
    × (g.path ≡ f.path)
    × (g.content ≡ f.content)

classify_documents-no_secret :
    (docs : List Manifest) (c : FileCategory)
    → IsCluster c
    → classify_documents docs ≡ c
    → any is_secret docs ≡ false
unfolding classify_documents
classify_documents-no_secret [] c h e = refl
classify_documents-no_secret (d ∷ docs) c h e = not_blocked (any is_secret (d ∷ docs)) _ e
  where
    not_blocked : (b : Bool) (x : FileCategory) → (if b then secret_blocked else x) ≡ c → b ≡ false
    not_blocked b x g = ground arith

-- A file of the two categories has it by its documents.
by_documents :
    (b1 b2 b3 b4 b5 b6 : Bool) (x : FileCategory) {c : FileCategory}
    → IsCluster c
    → (if b1
        then (if b2 then narrative_report else source_patch)
        else if b3
        then source_patch
        else if b4
        then narrative_report
        else if b5
        then source_patch
        else if b6
        then manifest_at_rest
        else x)
      ≡ c
    → x ≡ c
by_documents b1 b2 b3 b4 b5 b6 x h g = ground arith

classify_file-no_secret :
    (tools : Tools) (f : Entry) (c : FileCategory)
    → IsCluster c
    → classify_file tools f ≡ c
    → has_secret tools f ≡ false
unfolding classify_file has_secret
classify_file-no_secret tools f c h e =
    classify_documents-no_secret (parse_manifest tools (text_of f.content)) c h (
      by_documents (str_eq (text_of f.category) "codechange")
        (str_eq (text_of f.path) "code-changes-summary.md") (is_app_target (text_of f.target_path))
        ((str_eq (text_of f.category) "dependency" || str_eq (text_of f.category) "cost")
          && is_in (text_of f.path) narrative_report_filenames)
        (str_eq suffix ".md" && starts_with (text_of f.path) "skills/")
        (not (str_eq suffix ".yaml" || str_eq suffix ".yml")) _ h e)
  where
    suffix : String
    suffix = lower (tools.path_suffix (text_of f.path))

module _ (w : World) (files : List Entry) where
  pub files_for-IsFrom : (c : FileCategory) → All (IsFrom w files c) (files_for w c files)
  unfolding without_placeholders IsFrom
  files_for-IsFrom c = All-of_In (IsFrom w files c) (files_for w c files) λ f m.
      let (n, clean) =
        In-of_keep_if (λ (g : Entry). not (has_unresolved_placeholders w.tools g.content)) f
          (get_or [] (lookup c (deliverable_groups w.tools files))) m in
      let (old, its) =
        of_group f (is_deliverable c)
          (subst (In f) (members-deliverable_groups w.tools c files) n) in
      (f, old, its, not_true (has_unresolved_placeholders w.tools f.content) clean, refl, refl)
    where
      not_true : (b : Bool) → not b ≡ true → b ≡ false
      not_true b h = ground arith

      of_group :
          (f : Entry) (b : Bool)
          → In f (if b then of_category w.tools c files else [])
          → In f files × (classify_file w.tools f ≡ c)
      of_group f false m = absurd m
      of_group f true m =
          let (n, same) =
            In-of_keep_if (λ (g : Entry). same_category (classify_file w.tools g) c) f files m in
          (n, (category_eq.beq_iff (classify_file w.tools f) c).0 same)

  retargeted-IsFrom :
      (c : FileCategory) (f : Entry) (target : String)
      → IsFrom w files c f
      → IsFrom w files c (retargeted f target)
  unfolding IsFrom
  retargeted-IsFrom c f target h = h

  remapped-IsFrom :
      (c : FileCategory) (fs : List Entry)
      → All (IsFrom w files c) fs
      → All (IsFrom w files c) (remapped w c fs)
  unfolding remapped
  remapped-IsFrom cicd_shared_namespace fs h =
      remap_self_managed_cicd_files-keeps w.tools w.path_name (IsFrom w files cicd_shared_namespace)
        (retargeted-IsFrom cicd_shared_namespace) fs h
  remapped-IsFrom c fs h =
      remap_self_managed_cluster_files-keeps w.tools w.path_name (IsFrom w files c)
        (retargeted-IsFrom c) fs h

  -- No document of a file of the two categories is a Secret.
  IsFrom-no_secret :
      (c : FileCategory) (g : Entry)
      → IsCluster c
      → IsFrom w files c g
      → has_secret w.tools g ≡ false
  unfolding IsFrom has_secret
  IsFrom-no_secret c g h (f, m, its, clean, path, content) =
      ap (λ (o : Option String). any is_secret (parse_manifest w.tools (text_of o))) content
      ∙ classify_file-no_secret w.tools f c h its

  pub no_secrets :
      (c : FileCategory) (fs : List Entry)
      → IsCluster c
      → All (IsFrom w files c) fs
      → All (λ (g : Entry). has_secret w.tools g ≡ false) fs
  no_secrets c [] h hs = tt
  no_secrets c (g ∷ fs) h (k, ks) = (IsFrom-no_secret c g h k, no_secrets c fs h ks)

  pub one_of :
      (c : FileCategory) (fs : List Entry)
      → is_empty fs ≡ false
      → All (IsFrom w files c) fs
      → (f : Entry) × IsFrom w files c f
  one_of c [] h hs = absurd (cc)
  one_of c (f ∷ fs) h hs = (f, hs.0)

  -- The files of a category as a mechanism gets them.
  pub handed-IsFrom :
      (c : FileCategory) (gs : List Entry)
      → (gs ≡ files_for w c files) ⊎ (gs ≡ remapped w c (files_for w c files))
      → All (IsFrom w files c) gs
  handed-IsFrom c gs (inl e) = subst (All (IsFrom w files c)) (sym e) (files_for-IsFrom c)
  handed-IsFrom c gs (inr e) =
      subst (All (IsFrom w files c)) (sym e)
        (remapped-IsFrom c (files_for w c files) (files_for-IsFrom c))
