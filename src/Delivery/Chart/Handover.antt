-- ===== src/Delivery/Chart/Handover.antt =====
-- Which self-managed files are handed over to a source pull request.
use agent_it.Base.{
  String, Bool, true, false, not, Option, none, some, List, [], ◌∷◌, ◌≡◌, ◌⊎◌, inl, inr, refl, sym,
  ◌∙◌, subst, is_empty, if◌then◌else◌, In, In-of_keep_if, All, All-In, All-of_In,
}
use agent_it.Delivery.{Tools, Entry, text_of}
use agent_it.Delivery.Chart.{
  target_of, targets_chart, is_helm_shaped, bad_kinds, is_skill_file, hpa_reason, Repository,
  chart_files, with_target, keep_by, self_managed_chart_drop_reason,
  filter_self_managed_delivery_files, gate_self_managed_chart_files, handed_over, of_gate,
  of_filter, deliver_self_managed_source_pr,
}
use agent_it.Delivery.Chart.Hpa.{ChartTools, Hints}
use agent_it.Delivery.Chart.Reasons.{IsSafe, IsAbsent, IsFit}
use agent_it.Delivery.Chart.Gate.{gate_self_managed_chart_files-none}

module _ (tools : Tools) (chart_tools : ChartTools) (hints : Hints) where
  -- A file that the filter keeps.
  abbrev pub IsKept : Entry → Type 0
  IsKept f =
      (is_skill_file tools chart_tools hints f ≡ true)
      ⊎ ((targets_chart f ≡ true)
          × IsSafe tools chart_tools hints (text_of f.content)
          × (chart_tools.hardcoded_namespace (text_of f.content) ≡ false))

  drop_reason-IsKept :
      (f : Entry) → self_managed_chart_drop_reason tools chart_tools hints f ≡ none → IsKept f
  unfolding self_managed_chart_drop_reason
  drop_reason-IsKept f h =
      by_tests (is_skill_file tools chart_tools hints f) (targets_chart f)
        (bad_kinds tools (text_of f.content)) (is_helm_shaped (text_of f.content))
        (chart_tools.hardcoded_namespace (text_of f.content))
        (hpa_reason tools chart_tools hints (text_of f.content)) _ _ _ _ refl refl refl refl refl
        refl h
    where
      by_tests :
          (skill chart : Bool) (kinds : List String) (shaped hard : Bool) (hpa : Option String)
          (w x y z : String)
          → is_skill_file tools chart_tools hints f ≡ skill
          → targets_chart f ≡ chart
          → bad_kinds tools (text_of f.content) ≡ kinds
          → is_helm_shaped (text_of f.content) ≡ shaped
          → chart_tools.hardcoded_namespace (text_of f.content) ≡ hard
          → hpa_reason tools chart_tools hints (text_of f.content) ≡ hpa
          → (if skill
              then none
              else if not chart
              then some w
              else if not (is_empty kinds)
              then some x
              else if not shaped
              then some y
              else if hard
              then some z
              else with_target (target_of f) hpa)
            ≡ none
          → IsKept f
      by_tests true chart kinds shaped hard hpa w x y z a b c d e g h = inl a
      by_tests false false kinds shaped hard hpa w x y z a b c d e g h = absurd (cc)
      by_tests false true (k ∷ kinds) shaped hard hpa w x y z a b c d e g h = absurd (cc)
      by_tests false true [] false hard hpa w x y z a b c d e g h = absurd (cc)
      by_tests false true [] true true hpa w x y z a b c d e g h = absurd (cc)
      by_tests false true [] true false (some r) w x y z a b c d e g h = absurd (cc)
      by_tests false true [] true false none w x y z a b c d e g h =
          inr (b, record { kinds = c; shaped = d; scaled = g }, e)

  -- The filter keeps files of the batch.
  filter-IsKept :
      (files : List Entry)
      → All
          (λ (f : Entry). In f files × IsKept f)
          (filter_self_managed_delivery_files tools chart_tools hints files).0
  unfolding filter_self_managed_delivery_files
  filter-IsKept [] = tt
  filter-IsKept (f ∷ files) =
      by_reason (self_managed_chart_drop_reason tools chart_tools hints f) refl
        (filter_self_managed_delivery_files tools chart_tools hints files) (filter-IsKept files)
    where
      later :
          (kept : List Entry)
          → All (λ (g : Entry). In g files × IsKept g) kept
          → All (λ (g : Entry). In g (f ∷ files) × IsKept g) kept
      later kept h = All-of_In _ kept (λ g m. let (n, k) = All-In _ g kept h m in (inr n, k))

      by_reason :
          (o : Option String)
          → self_managed_chart_drop_reason tools chart_tools hints f ≡ o
          → (m : List Entry × List String) → All (λ (g : Entry). In g files × IsKept g) m.0
          → All (λ (g : Entry). In g (f ∷ files) × IsKept g) (keep_by o f m).0
      by_reason none e (kept, reasons) h = ((inl refl, drop_reason-IsKept f e), later kept h)
      by_reason (some reason) e (kept, reasons) h = later kept h

-- What stands in a source pull request.
pub record IsHandedOver (tools : Tools) (chart_tools : ChartTools) (hints : Hints)
    (repository : Repository) (remapped files : List Entry) : Type 0 where
  pub some_file : is_empty files ≡ false
  pub kept : All (λ (f : Entry). In f remapped × IsKept tools chart_tools hints f) files
  pub fit : All (IsFit tools chart_tools hints repository) (chart_files files)

-- Files are handed over to a source pull request only if the batch has a file that the filter keeps;
-- all of them are files of the batch that are for the skills or may stand in the chart, and each one
-- for the chart has a path that a known repository says is absent.
pub deliver_self_managed_source_pr-IsHandedOver :
    (tools : Tools) (chart_tools : ChartTools) (hints : Hints) (repository : Repository)
    (remapped files : List Entry) (reasons : List String)
    → deliver_self_managed_source_pr tools chart_tools hints repository remapped
      ≡ handed_over files reasons
    → IsHandedOver tools chart_tools hints repository remapped files
unfolding deliver_self_managed_source_pr
deliver_self_managed_source_pr-IsHandedOver tools chart_tools hints repository remapped files
      reasons e =
    of_files (filter_self_managed_delivery_files tools chart_tools hints remapped)
      (filter-IsKept tools chart_tools hints remapped) e
  where
    of_verdict :
        (o : Option String) (kept : List Entry) (rs : List String)
        → is_empty kept ≡ false
        → All (λ (f : Entry). In f remapped × IsKept tools chart_tools hints f) kept
        → gate_self_managed_chart_files tools chart_tools hints repository kept ≡ o
        → of_gate o kept rs ≡ handed_over files reasons
        → IsHandedOver tools chart_tools hints repository remapped files
    of_verdict none kept rs some_file h g k =
        subst (IsHandedOver tools chart_tools hints repository remapped) (files-eq k) (record {
          some_file = some_file;
          kept = h;
          fit = (gate_self_managed_chart_files-none tools chart_tools hints repository kept).0 g;
        })
      where
        files-eq : handed_over kept rs ≡ handed_over files reasons → kept ≡ files
        files-eq e = cc
    of_verdict (some reason) kept rs some_file h g k = absurd (cc)

    of_files :
        (m : List Entry × List String)
        → All (λ (f : Entry). In f remapped × IsKept tools chart_tools hints f) m.0
        → of_filter m.0 m.1 (gate_self_managed_chart_files tools chart_tools hints repository m.0)
          ≡ handed_over files reasons
        → IsHandedOver tools chart_tools hints repository remapped files
    of_files ([], rs) h k = absurd (cc)
    of_files (f ∷ kept, rs) h k = of_verdict _ (f ∷ kept) rs refl h refl k

-- Where every file of the batch for the chart is none for the skills and has a path that a known
-- repository says is absent, and the filter keeps a file, the gate refuses nothing: what the filter
-- keeps is handed over.
pub deliver_self_managed_source_pr-hands_over :
    (tools : Tools) (chart_tools : ChartTools) (hints : Hints) (repository : Repository)
    (remapped : List Entry)
    → All
        (λ (f : Entry).
          targets_chart f ≡ true
          → (is_skill_file tools chart_tools hints f ≡ false) × IsAbsent repository (target_of f))
        remapped
    → let (kept, reasons) = filter_self_managed_delivery_files tools chart_tools hints remapped in
      is_empty kept ≡ false
      → deliver_self_managed_source_pr tools chart_tools hints repository remapped
        ≡ handed_over kept reasons
unfolding deliver_self_managed_source_pr
deliver_self_managed_source_pr-hands_over tools chart_tools hints repository remapped h some_file =
    of_kept (filter_self_managed_delivery_files tools chart_tools hints remapped)
      (filter-IsKept tools chart_tools hints remapped) some_file
  where
    passed :
        (kept : List Entry)
        → All (λ (f : Entry). In f remapped × IsKept tools chart_tools hints f) kept
        → gate_self_managed_chart_files tools chart_tools hints repository kept ≡ none
    passed kept k = (gate_self_managed_chart_files-none tools chart_tools hints repository kept).1 (
        All-of_In _ (chart_files kept) (λ f m.
          let (n, chart) = In-of_keep_if targets_chart f kept m in
          let (in_batch, is_kept) = All-In _ f kept k n in
          let (no_skill, absent) = All-In _ f remapped h in_batch chart in
          elim is_kept [
            | inl skill ↦ absurd (cc (sym skill ∙ no_skill))
            | inr (c, safe, hard) ↦ (safe, absent)
          ]))

    of_kept :
        (m : List Entry × List String)
        → All (λ (f : Entry). In f remapped × IsKept tools chart_tools hints f) m.0
        → is_empty m.0 ≡ false
        → of_filter m.0 m.1 (gate_self_managed_chart_files tools chart_tools hints repository m.0)
          ≡ handed_over m.0 m.1
    of_kept ([], rs) k e = absurd (cc)
    of_kept (f ∷ kept, rs) k e = rw (passed (f ∷ kept) k) refl
