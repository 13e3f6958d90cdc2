-- ===== src/Verify/Failures/Bound.antt =====
-- How many deliveries of a check have a finding of one category fixed again.
use agent_it.Base.{
  ℕ, suc, ◌+◌, ◌-◌, ◌≤◌, ◌<◌, String, Bool, true, false, Option, none, some, List, [], ◌∷◌, ◌≡◌,
  ◌≢◌, inl, inr, refl, sym, ap, ◌∙◌, arith, str_eq, if◌then◌else◌, subst, not, ◌&&◌, is_some,
  is_empty, In, All, All-In, All-of_In, count_if, length, keep_if, In-of_keep_if,
}
use agent_it.Diff.{AssessmentReport}
use agent_it.Delivery.Route.{Result, ok}
use agent_it.Store.Deliveries.{
  Delivery, Deliveries, get_finding_failure_count, is_pending,
  list_deliveries_pending_finding_check,
}
use agent_it.Verify.{Db}
use agent_it.Verify.Dispatch.{Outside}
use agent_it.Verify.Redispatch.{finding_escalation_threshold}
use agent_it.Verify.Recheck.{
  Checked, check_delivery, check_all, with_result, check_pending_delivery_verifications,
}
use agent_it.Verify.Failures.{failures, failures-le, failures-old}
use agent_it.Verify.Failures.Retries.{refixed, continue-ok, ok-injective}
use agent_it.Verify.Failures.Checked.{IsDue, check_delivery-IsChecked, check_delivery-IsDue}

-- No two of the rows have the same identifier.
abbrev pub AreApart : Deliveries → Type 0
AreApart [] = Unit
AreApart (d ∷ rows) = All (λ (e : Delivery). e.id ≢ d.id) rows × AreApart rows

abbrev pub refixed_in : String → List Checked → ℕ
refixed_in category rs = count_if (refixed category) rs

-- The failures after the check count at least those before and the deliveries that were fixed again;
-- with those before, the latter stay below the threshold.
abbrev pub IsWithin : ℕ → ℕ → ℕ → Type 0
IsWithin before fixed after =
    (before + fixed ≤ after) × (fixed ≤ finding_escalation_threshold - 1 - before)

module _ (o : Outside) (app : String) (report : AssessmentReport) (low : ℕ)
    (category : String) where
  one_more :
      (r : Option Checked) (rs : List Checked) (before between after : ℕ)
      → before ≤ between
      → ((c : Checked)
          → r ≡ some c
          → refixed category c ≡ true
          → (suc before ≤ between) × (suc before < finding_escalation_threshold))
      → IsWithin between (refixed_in category rs) after
      → IsWithin before (refixed_in category (with_result o app report r rs)) after
  one_more none rs before between after le few (more, bound) =
      (omega (arith, le, more), omega (arith, le, bound))
  one_more (some c) rs before between after le few (more, bound) = by_test (refixed category c) refl
    where
      by_test :
          (b : Bool)
          → refixed category c ≡ b
          → IsWithin before
              (length
                (if b then c ∷ keep_if (refixed category) rs else keep_if (refixed category) rs))
              after
      by_test false e = (omega (arith, le, more), omega (arith, le, bound))
      by_test true e =
          let (lt, below) = few c refl e in
          (omega (arith, lt, more), omega (arith, lt, below, bound))

  check_all-IsWithin :
      (rows : Deliveries) (db : Db) (rs : List Checked)
      → All (λ (d : Delivery). IsDue o app report low category d db) rows
      → AreApart rows
      → (check_all o app report rows db).0 ≡ ok rs
      → IsWithin
          (failures low app category db.deliveries)
          (refixed_in category rs)
          (failures low app category (check_all o app report rows db).1.deliveries)
  unfolding check_all
  check_all-IsWithin [] db rs due apart e =
      subst
        (λ (l : List Checked).
          IsWithin (failures low app category db.deliveries) (refixed_in category l)
            (failures low app category db.deliveries))
        (ok-injective e) (omega arith, omega arith)
  check_all-IsWithin (d ∷ rows) db rs (first_due, due) (others, apart) e =
      let db1 = (check_delivery o app report d db).1 in
      let (r, first, rest, after) = continue-ok (check_delivery o app report d db) _ rs e in
      let (rs2, second, last, end) = continue-ok (check_all o app report rows db1) _ rs rest in
      let checked = check_delivery-IsChecked o app report low category d db first_due in
      let later = check_all-IsWithin rows db1 rs2 (still_due rows due others) apart second in
      subst
        (λ (l : List Checked).
          IsWithin (failures low app category db.deliveries) (refixed_in category l)
            (failures low app category (check_all o app report (d ∷ rows) db).1.deliveries))
        (ok-injective last)
        (subst
          (λ (m : Result (List Checked) × Db).
            IsWithin (failures low app category db.deliveries)
              (refixed_in category (with_result o app report r rs2))
              (failures low app category m.1.deliveries))
          (sym (after ∙ end))
          (one_more r rs2 _ _ _ checked.more (λ c k h. checked.few c (first ∙ ap ok k) h) later))
    where
      still_due :
          (es : Deliveries)
          → All (λ (e : Delivery). IsDue o app report low category e db) es
          → All (λ (e : Delivery). e.id ≢ d.id) es
          → All
              (λ (e : Delivery).
                IsDue o app report low category e (check_delivery o app report d db).1)
              es
      still_due [] h k = tt
      still_due (e ∷ es) (h, hs) (k, ks) =
          (check_delivery-IsDue o app report low category d e db k h, still_due es hs ks)

apart-keep_if :
    (p : Delivery → Bool) (rows : Deliveries) → AreApart rows → AreApart (keep_if p rows)
apart-keep_if p [] h = tt
apart-keep_if p (d ∷ rows) (h, hs) = by_test (p d) (apart-keep_if p rows hs)
  where
    others : All (λ (e : Delivery). e.id ≢ d.id) (keep_if p rows)
    others = All-of_In _ (keep_if p rows) (λ e m. All-In _ e rows h (In-of_keep_if p e rows m).0)

    by_test :
        (b : Bool)
        → AreApart (keep_if p rows)
        → AreApart (if b then d ∷ keep_if p rows else keep_if p rows)
    by_test true k = (others, k)
    by_test false k = k

apart-same :
    (rows : Deliveries) (d e : Delivery)
    → AreApart rows
    → In d rows
    → In e rows
    → e.id ≡ d.id
    → e ≡ d
apart-same [] d e h m n same = absurd m
apart-same (r ∷ rows) d e (h, hs) (inl k) (inl l) same = l ∙ sym k
apart-same (r ∷ rows) d e (h, hs) (inl k) (inr n) same =
    absurd (All-In _ e rows h n (same ∙ ap (λ (x : Delivery). x.id) k))
apart-same (r ∷ rows) d e (h, hs) (inr m) (inl l) same =
    absurd (All-In _ d rows h m (sym same ∙ ap (λ (x : Delivery). x.id) l))
apart-same (r ∷ rows) d e (h, hs) (inr m) (inr n) same = apart-same rows d e hs m n same

-- In a check that returns, the deliveries that have a finding of a category fixed again are
-- limited by the failures of the category before: at most two without a failure, one after one, and
-- none after two or more. The failures after it count at least those before and these deliveries.
-- The deliveries have different identifiers, which were given out before.
pub check_pending_delivery_verifications-IsWithin :
    (o : Outside) (app : String) (report : AssessmentReport) (category : String) (db : Db)
    (rs : List Checked)
    → All (λ (d : Delivery). d.id < db.fresh) db.deliveries
    → AreApart db.deliveries
    → (check_pending_delivery_verifications o app report db).0 ≡ ok rs
    → IsWithin (get_finding_failure_count app category db.deliveries) (refixed_in category rs) (
        get_finding_failure_count app category
          (check_pending_delivery_verifications o app report db).1.deliveries)
unfolding check_pending_delivery_verifications list_deliveries_pending_finding_check
check_pending_delivery_verifications-IsWithin o app report category db rs old apart e =
    let rows = keep_if (is_pending app) db.deliveries in
    let after = (check_all o app report rows db).1 in
    let (more, few) =
      check_all-IsWithin o app report db.fresh category rows db rs
        (All-of_In _ rows (λ d m. due d (In-of_keep_if (is_pending app) d db.deliveries m)))
        (apart-keep_if (is_pending app) db.deliveries apart) e in
    let same = failures-old db.fresh app category db.deliveries old in
    (
      omega (arith, more, same, failures-le db.fresh app category after.deliveries),
      omega (arith, few, same),
    )
  where
    tests : (a b c p : Bool) → (a && not b && not c && p) ≡ true → (a ≡ true) × (b ≡ false)
    tests a b c p h = ground arith

    unresolved : (r : Option String) → is_some r ≡ false → r ≡ none
    unresolved none h = refl
    unresolved (some r) h = absurd (cc)

    due :
        (d : Delivery)
        → In d db.deliveries × (is_pending app d ≡ true)
        → IsDue o app report db.fresh category d db
    due d (m, waits) =
        let (of_app, open_row) =
          tests (str_eq d.app_name app) (is_some d.finding_resolution) (is_empty d.target_findings)
            d.opened_pr waits in
        record {
          used = omega arith;
          of_app = of_app;
          waiting = record {
            old = All-In _ d db.deliveries old m;
            stands = m;
            is_open = All-of_In _ db.deliveries (λ r n k.
                ap (λ (x : Delivery). x.finding_resolution)
                  (apart-same db.deliveries d r apart m n k)
                ∙ unresolved d.finding_resolution open_row);
          };
        }
