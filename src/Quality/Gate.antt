-- ===== src/Quality/Gate.antt =====
-- The gates of portal/quality_prs.py: when a pull request may open, and why not.
use agent_it.Base.{
  ℕ, String, Bool, true, false, ◌&&◌, not, Option, none, some, List, [], ◌∷◌, ◌≡◌, ◌≢◌, ◌↔◌, ◌≤◌,
  ◌⊎◌, inl, inr, refl, ap, arith, In, In-keep_if, In-of_keep_if, is_empty, is_empty_text,
  append-not-empty, Bool-cases, if◌then◌else◌, keep_if, leb, le→leb, leb→le, ◌++ₛ◌, all, map, any,
  str_eq, some,
}
use agent_it.Registry.{FindingKey, allows_auto_pr, remediable_findings, clears_via_source}
use agent_it.Delivery.{Tools, Entry, classify_file, text_of}
use agent_it.Quality.{
  finding_gate_allows_pr, finding_gate_refuse_reason, strip_wrong_layer_companions, keeps_in_source,
  is_gitops_layer, is_companion, skill_texts, blocked_reason, no_findings_reason,
  cluster_validation_ok,
}

-- A finding for which Scan may open a pull request.
abbrev pub IsRemediable : FindingKey → Type 0
IsRemediable f = (is_empty_text f.0 ≡ false) × (allows_auto_pr f.0 ≡ true)

not-empty-In : (fs : List FindingKey) → is_empty fs ≡ false → (f : FindingKey) × In f fs
not-empty-In [] h = cc
not-empty-In (f ∷ fs) h = (f, inl refl)

In-not-empty : (fs : List FindingKey) (f : FindingKey) → In f fs → is_empty fs ≡ false
In-not-empty [] f h = absurd h
In-not-empty (g ∷ fs) f h = refl

remediable_findings-In :
    (fs : List FindingKey)
    → is_empty (remediable_findings fs) ≡ false
    → (f : FindingKey) × In f fs × IsRemediable f
unfolding remediable_findings
remediable_findings-In fs h =
    let r = not-empty-In (remediable_findings fs) h in
    let k =
      In-of_keep_if (λ (f : FindingKey). not (is_empty_text f.0) && allows_auto_pr f.0) r.0 fs
        r.1 in
    (r.0, k.0, both (is_empty_text (r.0).0) _ k.1)
  where
    both : (a b : Bool) → (not a && b) ≡ true → (a ≡ false) × (b ≡ true)
    both a b e = ground arith

In-remediable :
    (fs : List FindingKey) (f : FindingKey)
    → In f fs
    → IsRemediable f
    → is_empty (remediable_findings fs) ≡ false
unfolding remediable_findings
In-remediable fs f m h =
    In-not-empty _ f (In-keep_if _ f fs m (both (is_empty_text f.0) (allows_auto_pr f.0) h.0 h.1))
  where
    both : (a b : Bool) → a ≡ false → b ≡ true → (not a && b) ≡ true
    both a b ha hb = ground arith

-- The gate opens a pull request exactly for a batch that has a finding with a category whose contract
-- allows automatic pull requests, or for a claimed score delta that reaches the threshold.
pub finding_gate_allows_pr_lem :
    (fs : List FindingKey) (claimed : Option ℕ) (threshold : ℕ)
    → (finding_gate_allows_pr fs claimed threshold ≡ true) ↔ (
        ((f : FindingKey) × In f fs × IsRemediable f)
        ⊎ ((d : ℕ) × (claimed ≡ some d) × (threshold ≤ d)))
unfolding finding_gate_allows_pr
finding_gate_allows_pr_lem fs claimed threshold = (allowed, allows)
  where
    by_claim :
        (o : Option ℕ)
        → elim o [ none ↦ false | some delta ↦ leb threshold delta ] ≡ true
        → (d : ℕ) × (o ≡ some d) × (threshold ≤ d)
    by_claim none h = cc
    by_claim (some d) h = (d, refl, leb→le threshold d h)

    allowed :
        (if not (is_empty (remediable_findings fs))
            then true
            else elim claimed [ none ↦ false | some delta ↦ leb threshold delta ])
          ≡ true
        → ((f : FindingKey) × In f fs × IsRemediable f)
          ⊎ ((d : ℕ) × (claimed ≡ some d) × (threshold ≤ d))
    allowed h = elim (Bool-cases (is_empty (remediable_findings fs))) [
      | inl e ↦ inr (by_claim claimed (rw e at h))
      | inr e ↦ inl (remediable_findings-In fs e)
    ]

    allows :
        ((f : FindingKey) × In f fs × IsRemediable f)
          ⊎ ((d : ℕ) × (claimed ≡ some d) × (threshold ≤ d))
        → (if not (is_empty (remediable_findings fs))
            then true
            else elim claimed [ none ↦ false | some delta ↦ leb threshold delta ])
          ≡ true
    allows (inl (f, m, h)) = rw (In-remediable fs f m h)
    allows (inr (d, e, h)) =
        rw e (if_true (not (is_empty (remediable_findings fs))) (le→leb threshold d h))
      where
        if_true : (b : Bool) {c : Bool} → c ≡ true → (if b then true else c) ≡ true
        if_true true e = refl
        if_true false e = e

empty-text : (s : String) → is_empty_text s ≡ false → s ≢ ""
empty-text s h e = cc (ap is_empty_text e)

blocked_reason-ne : (fs : List FindingKey) → blocked_reason fs ≢ ""
unfolding blocked_reason
blocked_reason-ne fs = empty-text _ (append-not-empty _ _ refl)

reason-ne :
    (b : Bool) (fs : List FindingKey) → (if b then blocked_reason fs else no_findings_reason) ≢ ""
reason-ne true fs = blocked_reason-ne fs
reason-ne false fs = empty-text no_findings_reason refl

-- The refusal reason is empty exactly where the gate lets a pull request open without a claimed
-- score delta.
pub finding_gate_refuse_reason_lem :
    (fs : List FindingKey) (threshold : ℕ)
    → (finding_gate_refuse_reason fs ≡ "") ↔ (finding_gate_allows_pr fs none threshold ≡ true)
unfolding finding_gate_refuse_reason finding_gate_allows_pr
finding_gate_refuse_reason_lem fs threshold =
    elim (Bool-cases (is_empty (remediable_findings fs))) [
      | inl refused ↦ rw refused (λ e. absurd (reason-ne (not (is_empty fs)) fs e), λ e. cc)
      | inr allowed ↦ rw allowed (λ _. refl, λ _. refl)
    ]

-- A verdict that refuses, with a reason that begins with `why`.
refusal : (why rest : String) → is_empty_text why ≡ false → (false ≡ true → ⊥) × (why ++ₛ rest ≢ "")
refusal why rest h = (λ e. cc, empty-text _ (append-not-empty why rest h))

-- A cluster may open its pull request exactly if it has no collision, no dry-run error and no
-- failed property, and its reason is empty exactly where it may.
cluster_validation_ok_lem :
    (errors properties collisions : List String)
    → (((cluster_validation_ok errors properties collisions).0 ≡ true)
        ↔ ((collisions ≡ []) × (errors ≡ []) × (properties ≡ [])))
      × (((cluster_validation_ok errors properties collisions).1 ≡ "")
          ↔ ((cluster_validation_ok errors properties collisions).0 ≡ true))
unfolding cluster_validation_ok
cluster_validation_ok_lem errors properties (c ∷ cs) =
    let r = refusal "Resource collision: " _ refl in
    ((λ e. absurd (r.0 e), λ h. cc h.0), (λ e. absurd (r.1 e), λ e. absurd (r.0 e)))
cluster_validation_ok_lem (c ∷ cs) properties [] =
    let r = refusal "SSA/dry-run failed: " _ refl in
    ((λ e. absurd (r.0 e), λ h. cc h.1), (λ e. absurd (r.1 e), λ e. absurd (r.0 e)))
cluster_validation_ok_lem [] (c ∷ cs) [] =
    let r = refusal "Property check failed for targeted findings: " _ refl in
    ((λ e. absurd (r.0 e), λ h. cc h.2), (λ e. absurd (r.1 e), λ e. absurd (r.0 e)))
cluster_validation_ok_lem [] [] [] = ((λ _. (refl, refl, refl), λ _. refl), (λ _. refl, λ _. refl))

-- What `strip_wrong_layer_companions` leaves of a batch whose findings all clear in the source.
record IsInSource (tools : Tools) (cats : List String) (f : Entry) : Type 0 where
  layer : is_gitops_layer (classify_file tools f) ≡ false
  clearing :
      is_companion f ≡ false
      → is_empty_text (text_of f.skill_name) ≡ false
      → is_empty (skill_texts cats) ≡ false
      → any (λ (s : String). str_eq s (text_of f.skill_name)) (skill_texts cats) ≡ true

abbrev pub categories : List FindingKey → List String
categories fs =
    map (λ (f : FindingKey). f.0) (keep_if (λ (f : FindingKey). not (is_empty_text f.0)) fs)

keeps_in_source-IsInSource :
    (tools : Tools) (cats : List String) (f : Entry)
    → keeps_in_source tools (skill_texts cats) f ≡ true
    → IsInSource tools cats f
unfolding keeps_in_source
keeps_in_source-IsInSource tools cats f h =
    let r =
      fields (is_gitops_layer (classify_file tools f)) (is_companion f)
        (is_empty_text (text_of f.skill_name)) (is_empty (skill_texts cats)) _ h in
    record { layer = r.0; clearing = r.1 }
  where
    fields :
        (layer comp blank none_allowed allowed : Bool)
        → (if layer then false else not (not comp && not blank && not none_allowed && not allowed))
          ≡ true
        → (layer ≡ false) × (comp ≡ false → blank ≡ false → none_allowed ≡ false → allowed ≡ true)
    fields layer comp blank none_allowed allowed e = (ground arith, λ a b c. ground arith)

-- Where a batch has findings with categories and all of them clear by a source patch, every file that
-- stays is a file of the batch, in no GitOps layer; if it is a fix that names a skill, and the
-- findings have contracts, the skill is the clearing skill of one of the findings.
strip_wrong_layer_companions-IsInSource :
    (tools : Tools) (files : List Entry) (fs : List FindingKey) (f : Entry)
    → is_empty (categories fs) ≡ false
    → all clears_via_source (categories fs) ≡ true
    → In f (strip_wrong_layer_companions tools files fs)
    → In f files × IsInSource tools (categories fs) f
unfolding strip_wrong_layer_companions
strip_wrong_layer_companions-IsInSource tools files fs f some_cats in_source m =
    let r =
      In-of_keep_if (keeps_in_source tools (skill_texts (categories fs))) f files
        (rw (some_cats, in_source) at m) in
    (r.0, keeps_in_source-IsInSource tools (categories fs) f r.1)
