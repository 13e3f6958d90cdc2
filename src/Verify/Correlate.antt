-- ===== src/Verify/Correlate.antt =====
-- `correlate_delivery_finding`: which of the findings that a delivery targeted still stand on a new
-- assessment.
use agent_it.Base.{
  Bool, true, false, not, Option, none, some, List, [], ◌∷◌, ◌≡◌, ◌↔◌, ◌⊎◌, refl, sym, ap, ◌∙◌,
  subst, arith, any, keep_if, is_empty, if◌then◌else◌, sort_by, In, In-sort_by, In-of_sort_by,
  In-keep_if, In-of_keep_if, any-In, Bool-cases, inl, inr,
}
use agent_it.Registry.{FindingKey}
use agent_it.Diff.{AssessmentReport, current_finding_keys, finding_key_eq}

-- `unknown`: the delivery has no targets; `pending`: there is no assessment to check against.
pub data Status : Type 0 where
  unknown pending resolved still_present : Status

pub record Correlation : Type 0 where
  pub status : Status
  pub target_findings : List FindingKey
  pub still_present_findings : List FindingKey
  pub resolved_findings : List FindingKey

abbrev pub is_in : List FindingKey → FindingKey → Bool
is_in keys k = any (λ (j : FindingKey). finding_key_eq.beq j k) keys

-- `sorted({…})`: each key once, by its category and then by its description
abbrev dedupe : List FindingKey → List FindingKey
dedupe [] = []
dedupe (k ∷ keys) = if is_in keys k then dedupe keys else k ∷ dedupe keys

unfoldable pub sorted_set : List FindingKey → List FindingKey
sorted_set keys =
    sort_by (λ (k : FindingKey). k.0) (sort_by (λ (k : FindingKey). k.1) (dedupe keys))

abbrev status_by : List FindingKey → Status
status_by still_present_findings =
    if is_empty still_present_findings then resolved else still_present

abbrev correlation : List FindingKey → List FindingKey → List FindingKey → Correlation
correlation target_findings still_present_findings resolved_findings = record {
  status = status_by still_present_findings;
  target_findings = target_findings;
  still_present_findings = still_present_findings;
  resolved_findings = resolved_findings;
}

unfoldable pub correlate_delivery_finding : List FindingKey → Option AssessmentReport → Correlation
unfolding sorted_set
correlate_delivery_finding [] report = record {
  status = unknown;
  target_findings = [];
  still_present_findings = [];
  resolved_findings = [];
}
correlate_delivery_finding (k ∷ keys) none = record {
  status = pending;
  target_findings = k ∷ keys;
  still_present_findings = [];
  resolved_findings = [];
}
correlate_delivery_finding (k ∷ keys) (some report) =
    let current = current_finding_keys report in
    correlation (k ∷ keys) (sorted_set (keep_if (is_in current) (k ∷ keys)))
      (sorted_set (keep_if (λ (j : FindingKey). not (is_in current j)) (k ∷ keys)))

In-dedupe : (k : FindingKey) (keys : List FindingKey) → In k keys → In k (dedupe keys)
In-dedupe k [] m = absurd m
In-dedupe k (j ∷ keys) (inl e) = elim (Bool-cases (is_in keys j)) [
  | inl twice ↦
      let (i, n, same) = any-In (λ (i : FindingKey). finding_key_eq.beq i j) keys twice in
      rw twice (
        In-dedupe k keys
          (subst (λ (x : FindingKey). In x keys) ((finding_key_eq.beq_iff i j).0 same ∙ sym e) n))
  | inr once ↦ rw once (inl e)
]
In-dedupe k (j ∷ keys) (inr m) = elim (Bool-cases (is_in keys j)) [
  | inl twice ↦ rw twice (In-dedupe k keys m)
  | inr once ↦ rw once (inr (In-dedupe k keys m))
]

In-of_dedupe : (k : FindingKey) (keys : List FindingKey) → In k (dedupe keys) → In k keys
In-of_dedupe k [] m = absurd m
In-of_dedupe k (j ∷ keys) m = by_twice (is_in keys j) (In-of_dedupe k keys) m
  where
    by_twice :
        (b : Bool)
        → (In k (dedupe keys) → In k keys)
        → In k (if b then dedupe keys else j ∷ dedupe keys)
        → In k (j ∷ keys)
    by_twice true rec n = inr (rec n)
    by_twice false rec (inl e) = inl e
    by_twice false rec (inr n) = inr (rec n)

pub In-sorted_set : (k : FindingKey) (keys : List FindingKey) → In k (sorted_set keys) ↔ In k keys
unfolding sorted_set
In-sorted_set k keys = (
  λ m. In-of_dedupe k keys (
      In-of_sort_by (λ (j : FindingKey). j.1) k (dedupe keys)
        (In-of_sort_by (λ (j : FindingKey). j.0) k (sort_by (λ (j : FindingKey). j.1) (dedupe keys))
          m)),
  λ m.
      In-sort_by (λ (j : FindingKey). j.0) k (sort_by (λ (j : FindingKey). j.1) (dedupe keys))
        (In-sort_by (λ (j : FindingKey). j.1) k (dedupe keys) (In-dedupe k keys m)),
)

-- The findings that a set kept by `p` shows.
In-sorted_kept :
    (p : FindingKey → Bool) (k : FindingKey) (keys : List FindingKey)
    → In k (sorted_set (keep_if p keys)) ↔ (In k keys × (p k ≡ true))
In-sorted_kept p k keys = (
  λ m. In-of_keep_if p k keys ((In-sorted_set k (keep_if p keys)).0 m),
  λ (m, e). (In-sorted_set k (keep_if p keys)).1 (In-keep_if p k keys m e),
)

-- What the correlation of a delivery with a new assessment tells.
pub record IsSplit (targets : List FindingKey) (report : AssessmentReport) : Type 0 where
  pub still :
      (k : FindingKey)
      → In k (correlate_delivery_finding targets (some report)).still_present_findings
        ↔ (In k targets × (is_in (current_finding_keys report) k ≡ true))
  pub gone :
      (k : FindingKey)
      → In k (correlate_delivery_finding targets (some report)).resolved_findings
        ↔ (In k targets × (is_in (current_finding_keys report) k ≡ false))
  pub cleared :
      (correlate_delivery_finding targets (some report)).status ≡ resolved
      → (k : FindingKey) → In k targets
      → is_in (current_finding_keys report) k ≡ false
  pub standing :
      (correlate_delivery_finding targets (some report)).status ≡ still_present
      → (k : FindingKey) × In k targets × (is_in (current_finding_keys report) k ≡ true)

-- A delivery with targets: a finding is still present where it is a target and stands in the
-- assessment, resolved where it is a target and does not; the status is "resolved" only if no
-- target stands, and "still_present" only if one does.
pub correlate_delivery_finding-IsSplit :
    (first : FindingKey) (rest : List FindingKey) (report : AssessmentReport)
    → IsSplit (first ∷ rest) report
unfolding correlate_delivery_finding
correlate_delivery_finding-IsSplit first rest report =
    let current = is_in (current_finding_keys report) in
    let targets = first ∷ rest in
    let still_keys = sorted_set (keep_if current targets) in
    record {
      still = λ k. In-sorted_kept current k targets;
      gone = λ k. (
        λ m.
            let (n, e) = (In-sorted_kept (λ (j : FindingKey). not (current j)) k targets).0 m in
            (n, not_true (current k) e),
        λ (m, e). (In-sorted_kept (λ (j : FindingKey). not (current j)) k targets).1 (m, ap not e),
      );
      cleared = λ h k m. elim (Bool-cases (current k)) [
        | inl stands ↦
            absurd (not_empty still_keys k h ((In-sorted_kept current k targets).1 (m, stands)))
        | inr cleared ↦ cleared
      ];
      standing = λ h.
          let (k, m) = some_key still_keys h in
          let (n, e) = (In-sorted_kept current k targets).0 m in (k, n, e);
    }
  where
    not_true : (b : Bool) → not b ≡ true → b ≡ false
    not_true b e = ground arith

    not_empty :
        (keys : List FindingKey) (k : FindingKey) → status_by keys ≡ resolved → In k keys → ⊥
    not_empty [] k h m = m
    not_empty (j ∷ keys) k h m = cc

    some_key :
        (keys : List FindingKey) → status_by keys ≡ still_present → (k : FindingKey) × In k keys
    some_key [] h = absurd (cc)
    some_key (j ∷ keys) h = (j, inl refl)

pub correlate_delivery_finding-status :
    (targets : List FindingKey) (report : AssessmentReport)
    → is_empty targets ≡ false
    → ((correlate_delivery_finding targets (some report)).status ≡ resolved)
      ⊎ ((correlate_delivery_finding targets (some report)).status ≡ still_present)
unfolding correlate_delivery_finding
correlate_delivery_finding-status [] report h = absurd (cc)
correlate_delivery_finding-status (k ∷ keys) report h =
    of_still (sorted_set (keep_if (is_in (current_finding_keys report)) (k ∷ keys)))
  where
    of_still :
        (still : List FindingKey) → (status_by still ≡ resolved) ⊎ (status_by still ≡ still_present)
    of_still [] = inl refl
    of_still (j ∷ still) = inr refl
