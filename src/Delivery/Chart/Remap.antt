-- ===== src/Delivery/Chart/Remap.antt =====
-- The paths that self-managed files are moved to, in src/agentit/portal/delivery.py.
use text.Mathlib.Text.{starts_with}
use agent_it.Base.{
  String, Bool, true, ◌&&◌, not, some, List, [], ◌∷◌, ◌≡◌, ◌⊎◌, inl, inr, map, any, if◌then◌else◌,
  is_empty_text, str_eq, lower, before, ◌++ₛ◌, All, Bool-cases,
}
use agent_it.Delivery.{Tools, Entry, Manifest, parse_manifest, text_of}
use agent_it.Delivery.Chart.{target_of, targets_chart}

-- `Path(p).name`
abbrev pub PathName : Type 0
PathName = String → String

abbrev pub retargeted : Entry → String → Entry
retargeted f target = record f { target_path = some target }

abbrev in_folder : String → Bool
in_folder category =
    not (is_empty_text category) && not (str_eq category "skills") && not (str_eq category "misc")

abbrev is_application : Manifest → Bool
is_application m = str_eq m.kind "Application"

-- `apiVersion.split("/", 1)[0] == "tekton.dev"`
abbrev is_tekton : Manifest → Bool
is_tekton m = str_eq (before "/" m.api_version) "tekton.dev"

module _ (tools : Tools) (path_name : PathName) where
  abbrev markdown_target : Entry → String
  markdown_target f =
      if starts_with (text_of f.path) "skills/"
      then text_of f.path
      else if in_folder (text_of f.category)
      then "skills/" ++ₛ text_of f.category ++ₛ "/" ++ₛ path_name (text_of f.path)
      else "skills/" ++ₛ path_name (text_of f.path)

  abbrev remap_cluster : Entry → Entry
  remap_cluster f = retargeted f (
      if str_eq (lower (tools.path_suffix (text_of f.path))) ".md"
      then markdown_target f
      else "chart/templates/" ++ₛ path_name (text_of f.path))

  -- Each file has a path.
  unfoldable pub remap_self_managed_cluster_files : List Entry → List Entry
  remap_self_managed_cluster_files files = map remap_cluster files

  abbrev cicd_target : Entry → String
  cicd_target f =
      if any is_tekton (parse_manifest tools (text_of f.content))
      then "chart/templates/tekton/" ++ₛ path_name (text_of f.path)
      else "chart/templates/" ++ₛ path_name (text_of f.path)

  -- A file with an Application is dropped.
  unfoldable pub remap_self_managed_cicd_files : List Entry → List Entry
  unfolding parse_manifest before
  remap_self_managed_cicd_files [] = []
  remap_self_managed_cicd_files (f ∷ files) =
      let rest = remap_self_managed_cicd_files files in
      if any is_application (parse_manifest tools (text_of f.content))
      then rest
      else retargeted f (cicd_target f) ∷ rest

-- A file for the skills or for the chart, never for the folder of the application in the GitOps
-- repository.
abbrev pub IsDestined : Entry → Type 0
IsDestined f = (starts_with (target_of f) "skills/" ≡ true) ⊎ (targets_chart f ≡ true)

module _ (tools : Tools) (path_name : PathName) where
  -- A predicate that does not read the target stays with every file that is moved.
  module _ (P : Entry → Type 0)
      (blind : (f : Entry) (target : String) → P f → P (retargeted f target)) where
    pub remap_self_managed_cluster_files-keeps :
        (fs : List Entry) → All P fs → All P (remap_self_managed_cluster_files tools path_name fs)
    unfolding remap_self_managed_cluster_files
    remap_self_managed_cluster_files-keeps [] h = tt
    remap_self_managed_cluster_files-keeps (f ∷ fs) (h, hs) =
        (blind f _ h, remap_self_managed_cluster_files-keeps fs hs)

    pub remap_self_managed_cicd_files-keeps :
        (fs : List Entry) → All P fs → All P (remap_self_managed_cicd_files tools path_name fs)
    unfolding remap_self_managed_cicd_files
    remap_self_managed_cicd_files-keeps [] h = tt
    remap_self_managed_cicd_files-keeps (f ∷ fs) (h, hs) =
        elim (Bool-cases (any is_application (parse_manifest tools (text_of f.content)))) [
          | inl dropped ↦ rw dropped (remap_self_managed_cicd_files-keeps fs hs)
          | inr moved ↦ rw moved (blind f _ h, remap_self_managed_cicd_files-keeps fs hs)
        ]
