-- ===== src/Delivery/Chart/Gate.antt =====
-- When the chart gate lets a batch through.
use agent_it.Base.{
  String, Bool, true, false, Option, none, some, List, [], ◌∷◌, ◌≡◌, ◌≢◌, ◌⊎◌, ◌↔◌, inl, inr, refl,
  sym, ap, ◌∙◌, map, is_empty, if◌then◌else◌, lookup, string_eq, str_eq, eq_iff, In, In-map,
  In-keep_if, In-of_keep_if, In-sort_by, All, All-In, All-of_In, Bool-cases,
}
use agent_it.Registry.Lines.{distinct}
use agent_it.Delivery.{Tools, Entry}
use agent_it.Delivery.Chart.{
  target_of, targets_chart, all_reasons, refusal, Repository, existence, chart_files,
  lookup_chart_path_existence, unknown_existence, validate_self_managed_chart_delivery,
  gate_self_managed_chart_files,
}
use agent_it.Delivery.Chart.Hpa.{ChartTools, Hints}
use agent_it.Delivery.Chart.Reasons.{IsAbsent, IsFit, all_reasons-nil}

In-distinct : (x : String) (xs : List String) → In x xs → In x (distinct xs)
In-distinct x [] m = m
In-distinct x (y ∷ xs) (inl e) = inl e
In-distinct x (y ∷ xs) (inr m) = elim (Bool-cases (str_eq y x)) [
  | inl e ↦ inl (sym ((eq_iff y x).0 e))
  | inr e ↦ inr (In-keep_if _ x (distinct xs) (In-distinct x xs m) (rw e refl))
]

lookup-answers :
    (exists : String → Option Bool) (target : String) (targets : List String)
    → In target targets
    → lookup target (map (λ (t : String). (t, exists t)) targets) ≡ some (exists target)
unfolding lookup
lookup-answers exists target [] m = absurd m
lookup-answers exists target (t ∷ targets) m = elim (Bool-cases (str_eq t target)) [
  | inl e ↦ rw e (ap (λ (x : String). some (exists x)) ((eq_iff t target).0 e))
  | inr e ↦ rw e (lookup-answers exists target targets (later m e))
]
  where
    later : (target ≡ t) ⊎ In target targets → str_eq t target ≡ false → In target targets
    later (inl k) e = absurd (cc (sym e ∙ (eq_iff t target).1 (sym k)))
    later (inr n) e = n

lookup-unknown :
    (target : String) (files : List Entry)
    → lookup target (unknown_existence files) ≢ some (some false)
unfolding lookup
lookup-unknown target [] h = cc
lookup-unknown target (f ∷ files) h =
    by_test (str_eq (target_of f) target) h (lookup-unknown target files)
  where
    by_test :
        (b : Bool)
        → (if b then some none else lookup target (unknown_existence files)) ≡ some (some false)
        → (lookup target (unknown_existence files) ≢ some (some false))
        → ⊥
    by_test true k rec = cc
    by_test false k rec = rec k

-- What the map says of a file of the batch.
existence-IsAbsent :
    (repository : Repository) (files : List Entry) (f : Entry)
    → In f (chart_files files)
    → (lookup (target_of f) (existence repository (chart_files files)) ≡ some (some false))
      ↔ IsAbsent repository (target_of f)
unfolding lookup_chart_path_existence
existence-IsAbsent none files f m = (
  λ h. absurd (lookup-unknown (target_of f) (chart_files files) h),
  λ (exists, e, k). absurd (cc),
)
existence-IsAbsent (some exists) files f m =
    let chart = (In-of_keep_if targets_chart f files m).1 in
    let found = lookup-answers exists (target_of f) _ (
      In-sort_by (λ (target : String). target) (target_of f) _
        (In-distinct (target_of f) _
          (In-map target_of f _ (In-keep_if targets_chart f (chart_files files) m chart)))) in
    (
      λ h. (exists, refl, some-injective (sym found ∙ h)),
      λ (answers, e, k).
          found
          ∙ ap some (ap (λ (g : String → Option Bool). g (target_of f)) (some-injective e) ∙ k),
    )
  where
    some-injective : {A : Type 0} {a b : A} → some a ≡ some b → a ≡ b
    some-injective e = cc

refusal-none : (reasons : List String) → (refusal reasons ≡ none) ↔ (reasons ≡ [])
refusal-none [] = (λ h. refl, λ h. refl)
refusal-none (r ∷ reasons) = (λ h. absurd (cc), λ h. absurd (cc))

-- The gate lets a batch through exactly if each of its files for the chart has no forbidden kind, is
-- shaped like a Helm template, has no wrong autoscaler, and has a path that a known repository says
-- is absent.
pub gate_self_managed_chart_files-none :
    (tools : Tools) (chart_tools : ChartTools) (hints : Hints) (repository : Repository)
    (files : List Entry)
    → (gate_self_managed_chart_files tools chart_tools hints repository files ≡ none)
      ↔ All (IsFit tools chart_tools hints repository) (chart_files files)
unfolding gate_self_managed_chart_files validate_self_managed_chart_delivery
gate_self_managed_chart_files-none tools chart_tools hints repository files =
    by_empty (is_empty (chart_files files)) refl
  where
    validated :
        (refusal (
            all_reasons tools chart_tools hints
              (existence repository (chart_files files))
              (chart_files files))
          ≡ none)
        ↔ All (IsFit tools chart_tools hints repository) (chart_files files)
    validated =
        let reasons =
          all_reasons-nil tools chart_tools hints (existence repository (chart_files files))
            (chart_files files) in
        (
          λ h. All-of_In _ (chart_files files) (λ f m.
              let (safe, absent) =
                All-In _ f (chart_files files) (reasons.0 ((refusal-none _).0 h)) m
                  (In-of_keep_if targets_chart f files m).1 in
              (safe, (existence-IsAbsent repository files f m).0 absent)),
          λ h. (refusal-none _).1 (
              reasons.1 (
                All-of_In _ (chart_files files) (λ f m _.
                  let (safe, absent) = All-In _ f (chart_files files) h m in
                  (safe, (existence-IsAbsent repository files f m).1 absent)))),
        )

    by_empty :
        (b : Bool)
        → is_empty (chart_files files) ≡ b
        → ((if b
              then none
              else refusal (
                  all_reasons tools chart_tools hints
                    (existence repository (chart_files files))
                    (chart_files files)))
            ≡ none)
          ↔ All (IsFit tools chart_tools hints repository) (chart_files files)
    by_empty true e = (λ h. all_of_none (chart_files files) e, λ h. refl)
      where
        all_of_none :
            (fs : List Entry)
            → is_empty fs ≡ true
            → All (IsFit tools chart_tools hints repository) fs
        all_of_none [] k = tt
        all_of_none (f ∷ fs) k = absurd (cc)
    by_empty false e = validated
