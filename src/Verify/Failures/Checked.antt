-- ===== src/Verify/Failures/Checked.antt =====
-- The check of one delivery, and the failures of a category.
use agent_it.Base.{
  ℕ, suc, ◌≤◌, ◌<◌, String, true, false, Option, none, some, List, [], ◌∷◌, ◌≡◌, ◌≢◌, inl, inr,
  refl, sym, ◌∙◌, arith, str_eq, Bool-cases, subst, In, In-any, All-In,
}
use agent_it.Registry.{FindingKey}
use agent_it.Diff.{AssessmentReport}
use agent_it.Delivery.Route.{Result, ok}
use agent_it.Store.Deliveries.{Delivery, Deliveries, update_delivery}
use agent_it.Verify.{Db}
use agent_it.Verify.Dispatch.{Outside}
use agent_it.Verify.Redispatch.{Decision, escalated, redispatched, finding_escalation_threshold}
use agent_it.Verify.Correlate.{
  Correlation, Status, unknown, pending, resolved, still_present, correlate_delivery_finding,
  correlate_delivery_finding-IsSplit,
}
use agent_it.Verify.Recheck.{
  Checked, handle_each, mark, on_resolved, on_still_present, check_by, check_delivery,
}
use agent_it.Verify.Kept.{Kept, continue-keeps, log-keeps}
use agent_it.Verify.Kept.Handle.{on_resolved-keeps, on_still_present-keeps, recorded-keeps}
use agent_it.Verify.Failures.{failures, failures-Stable}
use agent_it.Verify.Failures.Marks.{mark-failures, mark-failures-le, mark-resolved, IsUnresolved}
use agent_it.Verify.Failures.Waiting.{IsWaiting, update-IsWaiting, waiting-Stable}
use agent_it.Verify.Failures.Retries.{refixes, refixed, continue-ok, ok-injective, handle_each-few}

refixes-In :
    (category : String) (keys : List FindingKey) (ds : List Decision)
    → refixes category keys ds ≡ true
    → (k : FindingKey) × In k keys × (str_eq k.0 category ≡ true)
refixes-In category [] ds h = absurd (cc)
refixes-In category (k ∷ keys) [] h = absurd (cc)
refixes-In category (k ∷ keys) (escalated e n b ∷ ds) h =
    let (j, m, e) = refixes-In category keys ds h in (j, inr m, e)
refixes-In category (k ∷ keys) (redispatched n r ∷ ds) h = elim (Bool-cases (str_eq k.0 category)) [
  | inl e ↦ (k, inl refl, e)
  | inr e ↦ let (j, m, same) = refixes-In category keys ds (rw e at h) in (j, inr m, same)
]

refixes-nil : (category : String) (keys : List FindingKey) → refixes category keys [] ≡ false
refixes-nil category [] = refl
refixes-nil category (k ∷ keys) = refl

some-injective : {A : Type 0} {a b : A} → ok (some a) ≡ ok (some b) → a ≡ b
some-injective e = cc

still-In :
    (keys : List FindingKey) (report : AssessmentReport) (k : FindingKey)
    → In k (correlate_delivery_finding keys (some report)).still_present_findings
    → In k keys
unfolding correlate_delivery_finding
still-In [] report k m = m
still-In (j ∷ keys) report k m =
    (((correlate_delivery_finding-IsSplit j keys report).still k).0 m).0

module _ (o : Outside) (app : String) (report : AssessmentReport) (low : ℕ)
    (category : String) where
  -- The old failures do not get fewer, and one that is fixed again is one more, below the threshold.
  pub record IsChecked (db : Db) (m : Result (Option Checked) × Db) : Type 0 where
    pub used : low ≤ m.1.fresh
    pub more : failures low app category db.deliveries ≤ failures low app category m.1.deliveries
    pub few :
        (r : Checked)
        → m.0 ≡ ok (some r)
        → refixed category r ≡ true
        → suc (failures low app category db.deliveries) ≤ failures low app category m.1.deliveries
          × (suc (failures low app category db.deliveries) < finding_escalation_threshold)

  on_still_present-few :
      (d : Delivery) (c : Correlation) (db : Db) (n : ℕ) (r : Checked)
      → Kept low
          (λ (rows : Deliveries). failures low app category rows ≡ n)
          (mark o app report d.id "still_present" db)
      → (on_still_present o app report d c db).0 ≡ ok r
      → refixed category r ≡ true
      → (n < finding_escalation_threshold)
        × ((k : FindingKey) × In k c.still_present_findings × (str_eq k.0 category ≡ true))
  unfolding on_still_present
  on_still_present-few d c db n r kept e h =
      let (ds, first, last, _) =
        continue-ok (handle_each o app report c.still_present_findings _) _ r e in
      let fixed = subst (λ (x : Checked). refixed category x ≡ true) (sym (ok-injective last)) h in
      let stable = failures-Stable low app category n in
      (
        handle_each-few o app low report category c.still_present_findings _ ds n
            (recorded-keeps low _ stable app o report c.resolved_findings "approved" _ _ (
              recorded-keeps low _ stable app o report c.still_present_findings "rejected" _ _
                (log-keeps low _ stable app _ "warning" _ _ kept)))
            first fixed,
        refixes-In category c.still_present_findings ds fixed,
      )

  -- A waiting delivery of the application.
  pub record IsDue (d : Delivery) (db : Db) : Type 0 where
    pub used : low ≤ db.fresh
    pub of_app : str_eq d.app_name app ≡ true
    pub waiting : IsWaiting low d db.deliveries

  IsDue-IsUnresolved : (d : Delivery) (db : Db) → IsDue d db → IsUnresolved low app category d
  IsDue-IsUnresolved d db due = record {
    old = due.waiting.old;
    of_app = due.of_app;
    unresolved = All-In _ d db.deliveries due.waiting.is_open due.waiting.stands refl;
  }

  none-fixed :
      (d : Delivery) (c : Correlation) (db : Db) (r : Checked)
      → (on_resolved o app report d c db).0 ≡ ok r
      → refixed category r ≡ true
      → ⊥
  unfolding on_resolved
  none-fixed d c db r e h =
      let empty = subst (λ (x : Checked). refixed category x ≡ true) (sym (ok-injective e)) h in
      cc (sym (refixes-nil category c.still_present_findings) ∙ empty)

  check_resolved :
      (d : Delivery) (c : Correlation) (db : Db)
      → IsDue d db
      → IsChecked db (check_by o app report resolved d c db)
  unfolding mark
  check_resolved d c db due =
      let n = failures low app category db.deliveries in
      let kept =
        continue-keeps low _ (failures-Stable low app category n) app
          (on_resolved o app report d c db) _
          (on_resolved-keeps low _ (failures-Stable low app category n) app o report d c db
            (record {
              used = due.used;
              rows = mark-resolved low app category db.deliveries d.id due.waiting.is_open;
            }))
          (λ r e k. k) in
      record {
        used = kept.used;
        more = omega (arith, kept.rows);
        few = λ r e h.
            let (r2, first, last, _) = continue-ok (on_resolved o app report d c db) _ (some r) e in
            absurd (
              none-fixed d c db r2 first
                (subst (λ (x : Checked). refixed category x ≡ true) (sym (some-injective last)) h));
      }

  check_still_present :
      (d : Delivery) (db : Db)
      → IsDue d db
      → IsChecked db (
          check_by o app report still_present d
            (correlate_delivery_finding d.target_findings (some report))
            db)
  unfolding mark
  check_still_present d db due =
      let c = correlate_delivery_finding d.target_findings (some report) in
      let n =
        failures low app category
          (update_delivery d.id none (some "still_present") false db.deliveries) in
      let marked : Kept low (λ (rows : Deliveries). failures low app category rows ≡ n)
          (mark o app report d.id "still_present" db) =
        record { used = due.used; rows = refl } in
      let kept =
        continue-keeps low _ (failures-Stable low app category n) app
          (on_still_present o app report d c db) _
          (on_still_present-keeps low _ (failures-Stable low app category n) app o report d c db
            marked)
          (λ r e k. k) in
      record {
        used = kept.used;
        more = omega (arith, kept.rows, mark-failures-le low app category db.deliveries d.id);
        few = λ r e h.
            let (r2, first, last, _) =
              continue-ok (on_still_present o app report d c db) _ (some r) e in
            let (below, (k, m, same)) =
              on_still_present-few d c db n r2 marked first (
                subst (λ (x : Checked). refixed category x ≡ true) (sym (some-injective last)) h) in
            let one =
              mark-failures low app category db.deliveries d due.waiting.stands
                (IsDue-IsUnresolved d db due)
                (In-any (λ (j : FindingKey). str_eq j.0 category) k d.target_findings
                  (still-In d.target_findings report k m) same) in
            (omega (arith, kept.rows, one), omega (arith, below, one));
      }

  check_by-IsChecked :
      (s : Status) (d : Delivery) (db : Db)
      → IsDue d db
      → IsChecked db (
          check_by o app report s d (correlate_delivery_finding d.target_findings (some report)) db)
  check_by-IsChecked resolved d db due = check_resolved d _ db due
  check_by-IsChecked still_present d db due = check_still_present d db due
  check_by-IsChecked unknown d db due = record {
    used = due.used;
    more = omega arith;
    few = λ r e h. absurd (cc);
  }
  check_by-IsChecked pending d db due = record {
    used = due.used;
    more = omega arith;
    few = λ r e h. absurd (cc);
  }

  pub check_delivery-IsChecked :
      (d : Delivery) (db : Db) → IsDue d db → IsChecked db (check_delivery o app report d db)
  unfolding check_delivery
  check_delivery-IsChecked d db due =
      let c = correlate_delivery_finding d.target_findings (some report) in
      check_by-IsChecked c.status d db due

  -- The check of another delivery.
  check_by-IsWaiting :
      (s : Status) (d : Delivery) (c : Correlation) (db : Db) (e : Delivery)
      → e.id ≢ d.id
      → Kept low (IsWaiting low e) db
      → Kept low (IsWaiting low e) (check_by o app report s d c db).1
  unfolding mark
  check_by-IsWaiting resolved d c db e ne kept =
      continue-keeps low _ (waiting-Stable low e) app (on_resolved o app report d c db) _
        (on_resolved-keeps low _ (waiting-Stable low e) app o report d c db (record {
          used = kept.used;
          rows =
              update-IsWaiting low d.id none (some "resolved") false e db.deliveries ne kept.rows;
        }))
        (λ r e k. k)
  check_by-IsWaiting still_present d c db e ne kept =
      continue-keeps low _ (waiting-Stable low e) app (on_still_present o app report d c db) _
        (on_still_present-keeps low _ (waiting-Stable low e) app o report d c db (record {
          used = kept.used;
          rows =
              update-IsWaiting low d.id none (some "still_present") false e db.deliveries ne
                kept.rows;
        }))
        (λ r e k. k)
  check_by-IsWaiting unknown d c db e ne kept = kept
  check_by-IsWaiting pending d c db e ne kept = kept

  pub check_delivery-IsDue :
      (d e : Delivery) (db : Db)
      → e.id ≢ d.id
      → IsDue e db
      → IsDue e (check_delivery o app report d db).1
  unfolding check_delivery
  check_delivery-IsDue d e db ne due =
      let c = correlate_delivery_finding d.target_findings (some report) in
      let kept =
        check_by-IsWaiting c.status d c db e ne (record { used = due.used; rows = due.waiting }) in
      record { used = kept.used; of_app = due.of_app; waiting = kept.rows }
