-- ===== src/Delivery/Groups.antt =====
-- What `preview_delivery_groups` shows of a batch of files.
use agent_it.Base.{
  String, Bool, true, false, Option, none, some, List, [], ◌≡◌, ◌≢◌, refl, sym, ap, ◌∙◌, arith,
  IsDict, keep_if, if◌then◌else◌, lookup, lookup-collect, collected, remove-IsDict,
  group_from-IsDict, members-group_from, lookup-remove, group_from, remove, get_or,
}
use agent_it.Delivery.{
  Tools, Entry, FileCategory, narrative_report, secret_blocked, classify_file, without_placeholders,
  Mechanism, mechanism_for, repo_kind_for_mechanism, preview_group, preview_delivery_groups,
  PreviewGroup, deliverable_groups, category_eq, direct_apply, cluster_admin_review_gate,
  resolve_cluster_config_mechanism,
}
use agent_it.Delivery.Category.{same_category}

-- The files of a batch that have one category.
abbrev pub of_category : Tools → FileCategory → List Entry → List Entry
of_category tools c files = keep_if (λ (f : Entry). same_category (classify_file tools f) c) files

-- Secret and narrative files reach no mechanism.
abbrev pub is_deliverable : FileCategory → Bool
is_deliverable narrative_report = false
is_deliverable secret_blocked = false
is_deliverable _ = true

deliverable_groups-IsDict :
    (tools : Tools) (files : List Entry) → IsDict (deliverable_groups tools files)
unfolding deliverable_groups
deliverable_groups-IsDict tools files =
    remove-IsDict narrative_report _
      (remove-IsDict secret_blocked _ (group_from-IsDict (classify_file tools) [] files tt))

-- A deliverable category has its files, in their order; the others have none.
pub members-deliverable_groups :
    (tools : Tools) (c : FileCategory) (files : List Entry)
    → get_or [] (lookup c (deliverable_groups tools files))
      ≡ (if is_deliverable c then of_category tools c files else [])
unfolding deliverable_groups lookup
members-deliverable_groups tools c files =
    let grouped = group_from (classify_file tools) [] files in
    rw (lookup-remove narrative_report c (remove secret_blocked grouped))
      (rw (lookup-remove secret_blocked c grouped) (by_category c))
  where
    by_category :
        (k : FileCategory)
        → get_or [] (
            if same_category narrative_report k
            then none
            else if same_category secret_blocked k
            then none
            else lookup k (group_from (classify_file tools) [] files))
          ≡ (if is_deliverable k then of_category tools k files else [])
    by_category narrative_report = refl
    by_category secret_blocked = refl
    by_category k = members-group_from (classify_file tools) k [] files

-- The group of a category in a preview.
abbrev pub group_at : FileCategory → List (FileCategory × PreviewGroup) → Option PreviewGroup
group_at c groups = lookup c groups

-- The mechanisms that a delivery can still take.
abbrev IsLive : Mechanism → Type 0
IsLive m = (m ≢ direct_apply) × (m ≢ cluster_admin_review_gate)

-- What a preview promises of one of its groups.
record IsRouted (infra : Option String) (self_managed : Bool) (c : FileCategory) (g : PreviewGroup)
    : Type 0 where
  nonempty : g.files ≢ []
  routed : mechanism_for infra self_managed c ≡ some g.mechanism
  live : IsLive g.mechanism
  labelled : g.repo_kind ≡ repo_kind_for_mechanism g.mechanism

abbrev pub files_of : Option PreviewGroup → List Entry
files_of none = []
files_of (some g) = g.files

module _ (tools : Tools) (infra : Option String) (self_managed : Bool) where
  group_at-preview :
      (c : FileCategory) (files : List Entry)
      → group_at c (preview_delivery_groups tools infra self_managed files)
        ≡ collected
            (preview_group tools infra self_managed)
            c
            (lookup c (deliverable_groups tools files))
  unfolding preview_delivery_groups
  group_at-preview c files =
      lookup-collect (preview_group tools infra self_managed) c (deliverable_groups tools files)
        (deliverable_groups-IsDict tools files)

  files_of-preview_group :
      (c : FileCategory) (fs : List Entry)
      → files_of (preview_group tools infra self_managed c fs)
        ≡ (if is_deliverable c then without_placeholders tools fs else [])
  unfolding preview_group mechanism_for
  files_of-preview_group narrative_report fs = ground arith
  files_of-preview_group c fs = ground arith

  files_of-collected :
      (o : Option (List Entry)) (c : FileCategory) (fs : List Entry)
      → get_or [] o ≡ (if is_deliverable c then fs else [])
      → files_of (collected (preview_group tools infra self_managed) c o)
        ≡ (if is_deliverable c then without_placeholders tools fs else [])
  files_of-collected none c fs h = none_shown (is_deliverable c) h
    where
      none_shown :
          (b : Bool)
          → [] ≡ (if b then fs else [])
          → [] ≡ (if b then without_placeholders tools fs else [])
      none_shown true e = rw (← e) (unfold without_placeholders in refl)
      none_shown false e = refl
  files_of-collected (some l) c fs h = files_of-preview_group c l ∙ some_shown (is_deliverable c) h
    where
      some_shown :
          (b : Bool)
          → l ≡ (if b then fs else [])
          → (if b then without_placeholders tools l else [])
            ≡ (if b then without_placeholders tools fs else [])
      some_shown true e = ap (without_placeholders tools) e
      some_shown false e = refl

  preview_group-IsRouted :
      (c : FileCategory) (fs : List Entry) (g : PreviewGroup)
      → preview_group tools infra self_managed c fs ≡ some g
      → IsRouted infra self_managed c g
  unfolding preview_group mechanism_for resolve_cluster_config_mechanism
  preview_group-IsRouted narrative_report fs g h = ground arith
  preview_group-IsRouted c fs g h = ground arith

  -- A preview shows, for each category, exactly the files of the batch that have the category and no
  -- unresolved placeholder, in their order; for the secret and the narrative files it shows none.
  pub preview_delivery_groups-files :
      (c : FileCategory) (files : List Entry)
      → files_of (group_at c (preview_delivery_groups tools infra self_managed files))
        ≡ (if is_deliverable c then without_placeholders tools (of_category tools c files) else [])
  preview_delivery_groups-files c files =
      ap files_of (group_at-preview c files)
      ∙ files_of-collected (lookup c (deliverable_groups tools files)) c (of_category tools c files)
          (members-deliverable_groups tools c files)

  -- Every group of a preview has a file, and the mechanism and the repository label of its category;
  -- the mechanism is never direct apply or the cluster-admin gate.
  preview_delivery_groups-IsRouted :
      (c : FileCategory) (files : List Entry) (g : PreviewGroup)
      → group_at c (preview_delivery_groups tools infra self_managed files) ≡ some g
      → IsRouted infra self_managed c g
  preview_delivery_groups-IsRouted c files g h =
      routed (lookup c (deliverable_groups tools files)) (sym (group_at-preview c files) ∙ h)
    where
      routed :
          (o : Option (List Entry))
          → collected (preview_group tools infra self_managed) c o ≡ some g
          → IsRouted infra self_managed c g
      routed none e = cc
      routed (some fs) e = preview_group-IsRouted c fs g e
