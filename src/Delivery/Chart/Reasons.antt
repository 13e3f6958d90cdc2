-- ===== src/Delivery/Chart/Reasons.antt =====
-- When a file of the batch gives the chart gate no reason to refuse.
use agent_it.Base.{
  String, Bool, true, false, not, Option, none, some, List, [], ◌∷◌, ◌++◌, ◌≡◌, ◌↔◌, refl, sym, ◌∙◌,
  is_empty, if◌then◌else◌, lookup, string_eq, All,
}
use agent_it.Delivery.{Tools, Entry, text_of}
use agent_it.Delivery.Chart.{
  target_of, targets_chart, is_helm_shaped, bad_kinds, hpa_reason, reason_if, of_hpa, of_existence,
  chart_reasons, all_reasons, Repository,
}
use agent_it.Delivery.Chart.Hpa.{ChartTools, Hints}

-- A text that may stand in the chart.
pub record IsSafe (tools : Tools) (chart_tools : ChartTools) (hints : Hints) (content : String)
    : Type 0 where
  pub kinds : bad_kinds tools content ≡ []
  pub shaped : is_helm_shaped content ≡ true
  pub scaled : hpa_reason tools chart_tools hints content ≡ none

-- The repository is known, and says that it has no such path.
abbrev pub IsAbsent : Repository → String → Type 0
IsAbsent repository target =
    (exists : String → Option Bool) × (repository ≡ some exists) × (exists target ≡ some false)

-- A file that may go into the chart.
abbrev pub IsFit : Tools → ChartTools → Hints → Repository → Entry → Type 0
IsFit tools chart_tools hints repository f =
    IsSafe tools chart_tools hints (text_of f.content) × IsAbsent repository (target_of f)

append-nil_both : {A : Type 0} (xs ys : List A) → xs ++ ys ≡ [] → (xs ≡ []) × (ys ≡ [])
append-nil_both [] ys h = (refl, h)
append-nil_both (x ∷ xs) ys h = absurd (cc)

nil-append : {A : Type 0} (xs ys : List A) → xs ≡ [] → ys ≡ [] → xs ++ ys ≡ []
nil-append xs ys h k = rw (h, k) refl

four_nil :
    {A : Type 0} (a b c d : List A)
    → (a ++ b ++ c ++ d ≡ []) ↔ ((a ≡ []) × (b ≡ []) × (c ≡ []) × (d ≡ []))
four_nil a b c d = (
  λ h.
      let (abc, hd) = append-nil_both (a ++ b ++ c) d h in
      let (ab, hc) = append-nil_both (a ++ b) c abc in
      let (ha, hb) = append-nil_both a b ab in (ha, hb, hc, hd),
  λ (ha, hb, hc, hd). rw (ha, hb, hc, hd) refl,
)

no_reason : (b : Bool) (reason : String) → (reason_if b reason ≡ []) ↔ (b ≡ false)
no_reason true reason = (λ h. absurd (cc), λ h. absurd (cc))
no_reason false reason = (λ h. refl, λ h. refl)

no_hpa : (target : String) (o : Option String) → (of_hpa target o ≡ []) ↔ (o ≡ none)
no_hpa target none = (λ h. refl, λ h. refl)
no_hpa target (some reason) = (λ h. absurd (cc), λ h. absurd (cc))

no_existence :
    (target : String) (o : Option (Option Bool))
    → (of_existence target o ≡ []) ↔ (o ≡ some (some false))
no_existence target none = (λ h. absurd (cc), λ h. absurd (cc))
no_existence target (some none) = (λ h. absurd (cc), λ h. absurd (cc))
no_existence target (some (some true)) = (λ h. absurd (cc), λ h. absurd (cc))
no_existence target (some (some false)) = (λ h. refl, λ h. refl)

is_empty-nil : {A : Type 0} (xs : List A) → (not (is_empty xs) ≡ false) ↔ (xs ≡ [])
is_empty-nil [] = (λ h. refl, λ h. refl)
is_empty-nil (x ∷ xs) = (λ h. absurd (cc), λ h. absurd (cc))

not-false : (b : Bool) → (not b ≡ false) ↔ (b ≡ true)
not-false true = (λ h. refl, λ h. refl)
not-false false = (λ h. absurd (cc), λ h. absurd (cc))

module _ (tools : Tools) (chart_tools : ChartTools) (hints : Hints) where
  -- What the gate asks of one file.
  abbrev IsPassed : List (String × Option Bool) → Entry → Type 0
  IsPassed path_exists f =
      targets_chart f ≡ true
      → IsSafe tools chart_tools hints (text_of f.content)
        × (lookup (target_of f) path_exists ≡ some (some false))

  chart_reasons-nil :
      (path_exists : List (String × Option Bool)) (f : Entry)
      → (chart_reasons tools chart_tools hints path_exists f ≡ []) ↔ (
          IsSafe tools chart_tools hints (text_of f.content)
          × (lookup (target_of f) path_exists ≡ some (some false)))
  unfolding chart_reasons
  chart_reasons-nil path_exists f =
      let content = text_of f.content in
      let none_of =
        four_nil (reason_if (not (is_empty (bad_kinds tools content))) _)
          (reason_if (not (is_helm_shaped content)) _)
          (of_hpa (target_of f) (hpa_reason tools chart_tools hints content))
          (of_existence (target_of f) (lookup (target_of f) path_exists)) in
      (
        λ h.
            let (kinds, shaped, scaled, absent) = none_of.0 h in
            (
              record {
                kinds = (is_empty-nil (bad_kinds tools content)).0 ((no_reason _ _).0 kinds);
                shaped = (not-false (is_helm_shaped content)).0 ((no_reason _ _).0 shaped);
                scaled = (no_hpa (target_of f) _).0 scaled;
              },
              (no_existence (target_of f) _).0 absent,
            ),
        λ (safe, absent). none_of.1 (
          (no_reason _ _).1 ((is_empty-nil (bad_kinds tools content)).1 safe.kinds),
          (no_reason _ _).1 ((not-false (is_helm_shaped content)).1 safe.shaped),
          (no_hpa (target_of f) _).1 safe.scaled,
          (no_existence (target_of f) _).1 absent,
        ),
      )

  pub all_reasons-nil :
      (path_exists : List (String × Option Bool)) (files : List Entry)
      → (all_reasons tools chart_tools hints path_exists files ≡ [])
        ↔ All (IsPassed path_exists) files
  unfolding all_reasons
  all_reasons-nil path_exists [] = (λ h. tt, λ h. refl)
  all_reasons-nil path_exists (f ∷ files) =
      by_target (targets_chart f) refl (all_reasons-nil path_exists files)
    where
      by_target :
          (b : Bool)
          → targets_chart f ≡ b
          → (all_reasons tools chart_tools hints path_exists files ≡ [])
            ↔ All (IsPassed path_exists) files
          → ((if b then chart_reasons tools chart_tools hints path_exists f else [])
                ++ all_reasons tools chart_tools hints path_exists files
              ≡ [])
            ↔ (IsPassed path_exists f × All (IsPassed path_exists) files)
      by_target true e rest = (
        λ h.
            let (one, others) =
              append-nil_both (chart_reasons tools chart_tools hints path_exists f) _ h in
            (λ _. (chart_reasons-nil path_exists f).0 one, rest.0 others),
        λ (one, others).
            nil-append (chart_reasons tools chart_tools hints path_exists f) _
              ((chart_reasons-nil path_exists f).1 (one e)) (rest.1 others),
      )
      by_target false e rest =
          (λ h. ((λ k. absurd (cc (sym e ∙ k))), rest.0 h), λ (one, others). rest.1 others)
