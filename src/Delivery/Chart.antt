-- ===== src/Delivery/Chart.antt =====
-- The gate of self-managed deliveries into the Helm chart, in src/agentit/portal/delivery.py. The
-- theorems stand in Chart/Gate and Chart/Handover.
pub mod Hpa
pub mod Reasons
pub mod Gate
pub mod Handover
pub mod Remap
use text.Mathlib.Text.{starts_with}
use agent_it.Base.{
  ℕ, String, Bool, true, false, ◌&&◌, ◌||◌, not, Option, none, some, List, [], ◌∷◌, ◌++◌, map, any,
  keep_if, is_empty, is_empty_text, if◌then◌else◌, lookup, string_eq, str_eq, contains, lower, join,
  sort_by, ◌++ₛ◌,
}
use agent_it.Registry.Lines.{distinct}
use agent_it.Delivery.{Tools, Entry, Manifest, parse_manifest, text_of}
use agent_it.Delivery.Chart.Hpa.{ChartTools, Hints, self_managed_hpa_correctness_reason}

abbrev helm_template_markers : List String
helm_template_markers = "{{ .Values" ∷ "{{ .Release" ∷ "{{-" ∷ []

abbrev forbidden_chart_kinds : List String
forbidden_chart_kinds =
    "PipelineRun" ∷ "ClusterRole" ∷ "ClusterRoleBinding" ∷ "ClusterTask" ∷ "Application" ∷ []

unfoldable pub is_helm_shaped : String → Bool
is_helm_shaped content = any (contains content) helm_template_markers

-- `f.get("target_path") or f.get("path") or ""`
abbrev pub target_of : Entry → String
target_of f =
    if is_empty_text (text_of f.target_path) then text_of f.path else text_of f.target_path

abbrev pub targets_chart : Entry → Bool
targets_chart f = starts_with (target_of f) "chart/"

abbrev is_forbidden : String → Bool
is_forbidden kind = any (str_eq kind) forbidden_chart_kinds

-- The forbidden kinds among the documents, as a sorted set.
unfoldable pub bad_kinds : Tools → String → List String
bad_kinds tools content =
    sort_by (λ (kind : String). kind)
      (distinct
        (keep_if is_forbidden (map (λ (m : Manifest). m.kind) (parse_manifest tools content))))

abbrev pub with_target : String → Option String → Option String
with_target target none = none
with_target target (some reason) = some (target ++ₛ ": " ++ₛ reason)

abbrev pub reason_if : Bool → String → List String
reason_if b reason = if b then reason ∷ [] else []

abbrev pub of_hpa : String → Option String → List String
of_hpa target none = []
of_hpa target (some reason) = (target ++ₛ ": " ++ₛ reason) ∷ []

-- What the map says of a path: `some none` for an explicit None, `none` for a missing key.
abbrev pub of_existence : String → Option (Option Bool) → List String
of_existence target (some (some true)) =
    (target ++ₛ ": already exists on default branch (collision)") ∷ []
of_existence target (some (some false)) = []
of_existence target _ =
    (target ++ₛ ": could not verify absence on default branch (fail-closed)") ∷ []

abbrev pub refusal : List String → Option String
refusal [] = none
refusal (reason ∷ reasons) = some (
    "Self-managed chart delivery refused — "
    ++ₛ join "; " (reason ∷ reasons)
    ++ₛ ". See docs/architecture-agentit-vs-fleet-gitops.md "
    ++ₛ "(fail-closed chart gate). No PR opened.")

abbrev pub unknown_existence : List Entry → List (String × Option Bool)
unknown_existence files = map (λ (f : Entry). (target_of f, none)) files

-- The answers of the repository, where the report names one.
abbrev pub Repository : Type 0
Repository = Option (String → Option Bool)

abbrev pub chart_files : List Entry → List Entry
chart_files files = keep_if targets_chart files

-- `path_exists_on_default_branch` of each path
unfoldable pub lookup_chart_path_existence :
    (String → Option Bool) → List Entry → List (String × Option Bool)
lookup_chart_path_existence exists files =
    map (λ (target : String). (target, exists target))
      (sort_by (λ (target : String). target) (distinct (map target_of (chart_files files))))

abbrev pub existence : Repository → List Entry → List (String × Option Bool)
existence none files = unknown_existence files
existence (some exists) files = lookup_chart_path_existence exists files

abbrev pub keep_by : Option String → Entry → List Entry × List String → List Entry × List String
keep_by none f (kept, reasons) = (f ∷ kept, reasons)
keep_by (some reason) f (kept, reasons) = (kept, reason ∷ reasons)

module _ (tools : Tools) (chart_tools : ChartTools) (hints : Hints) where
  abbrev pub is_skill_file : Entry → Bool
  is_skill_file f =
      str_eq (lower (tools.path_suffix (target_of f))) ".md" || starts_with (target_of f) "skills/"

  abbrev pub hpa_reason : String → Option String
  hpa_reason content = self_managed_hpa_correctness_reason chart_tools content hints

  unfoldable pub self_managed_chart_drop_reason : Entry → Option String
  unfolding bad_kinds is_helm_shaped self_managed_hpa_correctness_reason
  self_managed_chart_drop_reason f =
      let target = target_of f in
      let content = text_of f.content in
      if is_skill_file f
      then none
      else if not (targets_chart f)
      then some (target ++ₛ ": not a skills/ or chart/ self-managed destination")
      else if not (is_empty (bad_kinds tools content))
      then some (
          target
          ++ₛ ": forbidden kind(s) "
          ++ₛ join ", " (bad_kinds tools content)
          ++ₛ " (fleet-only)")
      else if not (is_helm_shaped content)
      then some (
          target ++ₛ ": raw fleet-style YAML (not Helm-shaped) — "
          ++ₛ "prefer a skills/** markdown improvement, or a curated Helm chart patch")
      else if chart_tools.hardcoded_namespace content
      then some (
          target ++ₛ ": hardcoded namespace: agentit — "
          ++ₛ "use {{{{ .Release.Namespace }}}} for Application agentit sync")
      else with_target target (hpa_reason content)

  -- The files that are kept, and the reasons of the others.
  unfoldable pub filter_self_managed_delivery_files : List Entry → List Entry × List String
  unfolding self_managed_chart_drop_reason
  filter_self_managed_delivery_files [] = ([], [])
  filter_self_managed_delivery_files (f ∷ files) =
      keep_by (self_managed_chart_drop_reason f) f (filter_self_managed_delivery_files files)

  unfoldable pub chart_reasons : List (String × Option Bool) → Entry → List String
  unfolding bad_kinds is_helm_shaped self_managed_hpa_correctness_reason lookup
  chart_reasons path_exists f =
      let target = target_of f in
      let content = text_of f.content in
      reason_if (not (is_empty (bad_kinds tools content)))
        (target ++ₛ ": forbidden kind(s) " ++ₛ join ", " (bad_kinds tools content))
      ++ reason_if (not (is_helm_shaped content))
          (target ++ₛ ": not Helm-shaped (need {{ .Values / {{ .Release / {{-)")
      ++ of_hpa target (hpa_reason content)
      ++ of_existence target (lookup target path_exists)

  unfoldable pub all_reasons : List (String × Option Bool) → List Entry → List String
  unfolding chart_reasons
  all_reasons path_exists [] = []
  all_reasons path_exists (f ∷ files) =
      (if targets_chart f then chart_reasons path_exists f else []) ++ all_reasons path_exists files

  -- With the map of all paths, as the callers of the pipeline have it.
  unfoldable pub validate_self_managed_chart_delivery :
      List (String × Option Bool) → List Entry → Option String
  unfolding all_reasons
  validate_self_managed_chart_delivery path_exists files = refusal (all_reasons path_exists files)

  unfoldable pub gate_self_managed_chart_files : Repository → List Entry → Option String
  unfolding validate_self_managed_chart_delivery lookup_chart_path_existence
  gate_self_managed_chart_files repository files =
      if is_empty (chart_files files)
      then none
      else validate_self_managed_chart_delivery (existence repository (chart_files files))
          (chart_files files)

-- What `_deliver_self_managed_source_pr` does: it refuses, with the reasons of the dropped files, or
-- hands the files to `deliver_with_verification`.
pub data SelfManaged : Type 0 where
  filtered : String → List String → SelfManaged
  gate_refused : String → List String → SelfManaged
  handed_over : List Entry → List String → SelfManaged

abbrev or_nothing : List String → String
or_nothing reasons = if is_empty reasons then "nothing deliverable" else join "; " reasons

abbrev pub of_gate : Option String → List Entry → List String → SelfManaged
of_gate none files reasons = handed_over files reasons
of_gate (some reason) files reasons = gate_refused reason reasons

abbrev pub of_filter : List Entry → List String → Option String → SelfManaged
of_filter [] reasons gate =
    filtered
      ("Self-managed filter dropped all delivery candidates — "
        ++ₛ or_nothing reasons
        ++ₛ ". Prefer skills/** markdown improvements or curated Helm chart "
        ++ₛ "patches. See docs/architecture-agentit-vs-fleet-gitops.md. No PR opened.")
      reasons
of_filter (f ∷ files) reasons gate = of_gate gate (f ∷ files) reasons

unfoldable pub deliver_self_managed_source_pr :
    Tools → ChartTools → Hints → Option (String → Option Bool) → List Entry → SelfManaged
unfolding filter_self_managed_delivery_files gate_self_managed_chart_files
deliver_self_managed_source_pr tools chart_tools hints repository remapped =
    let (deliverable, reasons) =
      filter_self_managed_delivery_files tools chart_tools hints remapped in
    of_filter deliverable reasons
      (gate_self_managed_chart_files tools chart_tools hints repository deliverable)
