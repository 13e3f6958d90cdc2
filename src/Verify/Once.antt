-- ===== src/Verify/Once.antt =====
-- Each delivery is checked at most once.
use agent_it.Base.{
  ℕ, suc, ◌<◌, String, Bool, true, false, Option, none, some, List, [], ◌∷◌, ◌≡◌, ◌⊎◌, inl, inr,
  refl, arith, is_empty, is_some, All, All-In, All-of_In, In, In-keep_if, In-of_keep_if, keep_if,
  str_eq, not, ◌&&◌,
}
use agent_it.Diff.{AssessmentReport}
use agent_it.Delivery.Route.{Result, ok, raised}
use agent_it.Store.Deliveries.{
  Delivery, Deliveries, is_pending, list_deliveries_pending_finding_check,
}
use agent_it.Verify.{Db}
use agent_it.Verify.Dispatch.{Outside}
use agent_it.Verify.Redispatch.{continue}
use agent_it.Verify.Correlate.{
  Correlation, Status, unknown, pending, resolved, still_present, correlate_delivery_finding,
  correlate_delivery_finding-status,
}
use agent_it.Verify.Recheck.{
  Checked, mark, on_resolved, on_still_present, check_by, with_result, check_delivery, check_all,
  check_pending_delivery_verifications,
}
use agent_it.Verify.Kept.{continue-keeps}
use agent_it.Verify.Kept.Handle.{on_resolved-keeps, on_still_present-keeps}
use agent_it.Verify.Settled.{IsSettled, IsSettledRow, stable, update-settles}
use agent_it.Verify.Settled.Check.{check_delivery-keeps, check_all-keeps}

-- A row that was given out before, and has findings to check.
abbrev pub IsTarget : Db → Delivery → Type 0
IsTarget db d = (d.id < db.fresh) × (is_empty d.target_findings ≡ false)

not_yet : (i : ℕ) (db : Db) → i < db.fresh → IsSettled i false db
not_yet i db lt = record { used = lt; rows = All-of_In _ db.deliveries (λ d m e off. absurd (cc)) }

module _ (o : Outside) (app : String) (report : AssessmentReport) where
  mark-settles :
      (i : ℕ) (r : String) (db : Db) → i < db.fresh → IsSettled i true (mark o app report i r db)
  unfolding mark
  mark-settles i r db lt = record {
    used = lt;
    rows = update-settles i true none r false db.deliveries;
  }

  check_by-settles :
      (s : Status) (d : Delivery) (c : Correlation) (db : Db)
      → (s ≡ resolved) ⊎ (s ≡ still_present)
      → d.id < db.fresh
      → IsSettled d.id true (check_by o app report s d c db).1
  check_by-settles resolved d c db h lt =
      continue-keeps (suc d.id) (All (IsSettledRow d.id true)) (stable d.id true) app
        (on_resolved o app report d c db) _
        (on_resolved-keeps (suc d.id) (All (IsSettledRow d.id true)) (stable d.id true) app o report
          d c db (mark-settles d.id "resolved" db lt))
        (λ r e k. k)
  check_by-settles still_present d c db h lt =
      continue-keeps (suc d.id) (All (IsSettledRow d.id true)) (stable d.id true) app
        (on_still_present o app report d c db) _
        (on_still_present-keeps (suc d.id) (All (IsSettledRow d.id true)) (stable d.id true) app o
          report d c db (mark-settles d.id "still_present" db lt))
        (λ r e k. k)
  check_by-settles unknown d c db h lt = absurd (elim h [ inl e ↦ cc | inr e ↦ cc ])
  check_by-settles pending d c db h lt = absurd (elim h [ inl e ↦ cc | inr e ↦ cc ])

  -- A delivery with targets, whose identifier was given out before, has a resolution after it was
  -- checked against a new assessment, whether the check returns or raises.
  pub check_delivery-settles :
      (d : Delivery) (db : Db)
      → IsTarget db d
      → IsSettled d.id true (check_delivery o app report d db).1
  unfolding check_delivery
  check_delivery-settles d db (lt, some_target) =
      let c = correlate_delivery_finding d.target_findings (some report) in
      check_by-settles c.status d c db
        (correlate_delivery_finding-status d.target_findings report some_target) lt

  targets-after :
      (d : Delivery) (rows : Deliveries) (db : Db)
      → All (IsTarget db) rows
      → All (IsTarget (check_delivery o app report d db).1) rows
  targets-after d [] db h = tt
  targets-after d (e ∷ rows) db (h, hs) = (
    ((check_delivery-keeps e.id false app o report d db (not_yet e.id db h.0)).used, h.1),
    targets-after d rows db hs,
  )

  check_all-settles :
      (rows : Deliveries) (db : Db) (rs : List Checked)
      → All (IsTarget db) rows
      → (check_all o app report rows db).0 ≡ ok rs
      → All (λ (d : Delivery). IsSettled d.id true (check_all o app report rows db).1) rows
  unfolding check_all
  check_all-settles [] db rs h e = tt
  check_all-settles (d ∷ rows) db rs (h, hs) e =
      by_first (check_delivery o app report d db) (check_delivery-settles d db h)
        (targets-after d rows db hs) (λ db2 rs2 t. check_all-settles rows db2 rs2 t) e
    where
      All-rows : Db → Type 0
      All-rows db' = All (λ (r : Delivery). IsSettled r.id true db') rows

      after : Option Checked → Db → Result (List Checked) × Db
      after r db2 =
          let (rest, db3) = check_all o app report rows db2 in
          continue rest
            (λ (rs : List Checked). λ (db4 : Db). (ok (with_result o app report r rs), db4)) db3

      by_rest :
          (r : Option Checked) (m : Result (List Checked) × Db)
          → IsSettled d.id true m.1
          → ((rs2 : List Checked) → m.0 ≡ ok rs2 → All-rows m.1)
          → (continue m.0
              (λ (rs : List Checked). λ (db4 : Db). (ok (with_result o app report r rs), db4))
              m.1).0
            ≡ ok rs
          → IsSettled d.id true
              (continue m.0
                (λ (rs : List Checked). λ (db4 : Db). (ok (with_result o app report r rs), db4))
                m.1).1
            × All-rows
                (continue m.0
                  (λ (rs : List Checked). λ (db4 : Db). (ok (with_result o app report r rs), db4))
                  m.1).1
      by_rest r (ok rs3, db4) k rec g = (k, rec rs3 refl)
      by_rest r (raised x, db4) k rec g = absurd (cc)

      by_first :
          (m : Result (Option Checked) × Db)
          → IsSettled d.id true m.1
          → All (IsTarget m.1) rows
          → ((db2 : Db) (rs2 : List Checked)
              → All (IsTarget db2) rows
              → (check_all o app report rows db2).0 ≡ ok rs2
              → All-rows (check_all o app report rows db2).1)
          → (continue m.0 after m.1).0 ≡ ok rs
          → IsSettled d.id true (continue m.0 after m.1).1 × All-rows (continue m.0 after m.1).1
      by_first (ok r, db2) k t rec g =
          by_rest r (check_all o app report rows db2)
            (check_all-keeps d.id true app o report rows db2 k) (λ rs2. rec db2 rs2 t) g
      by_first (raised x, db2) k t rec g = absurd (cc)

  pending-targets :
      (db : Db)
      → All (λ (d : Delivery). d.id < db.fresh) db.deliveries
      → All (IsTarget db) (list_deliveries_pending_finding_check app db.deliveries)
  unfolding list_deliveries_pending_finding_check
  pending-targets db old = All-of_In (IsTarget db) (keep_if (is_pending app) db.deliveries) (λ d m.
      let (n, e) = In-of_keep_if (is_pending app) d db.deliveries m in
      (
        All-In (λ (r : Delivery). r.id < db.fresh) d db.deliveries old n,
        has_targets (str_eq d.app_name app) (is_some d.finding_resolution)
            (is_empty d.target_findings) d.opened_pr e,
      ))
    where
      has_targets : (a b c p : Bool) → (a && not b && not c && p) ≡ true → c ≡ false
      has_targets a b c p h = ground arith

  -- After a check that returns, no delivery that waited for it waits for another one, whatever was
  -- fixed or escalated meanwhile. The identifiers of the deliveries were given out before.
  pub check_pending_delivery_verifications-settles :
      (db : Db) (rs : List Checked) (d : Delivery)
      → All (λ (r : Delivery). r.id < db.fresh) db.deliveries
      → (check_pending_delivery_verifications o app report db).0 ≡ ok rs
      → In d db.deliveries
      → is_pending app d ≡ true
      → All
          (λ (r : Delivery). r.id ≡ d.id → is_pending app r ≡ false)
          (check_pending_delivery_verifications o app report db).1.deliveries
  unfolding check_pending_delivery_verifications list_deliveries_pending_finding_check
  check_pending_delivery_verifications-settles db rs d old e m waits =
      let rows = keep_if (is_pending app) db.deliveries in
      let settled =
        All-In (λ (r : Delivery). IsSettled r.id true (check_all o app report rows db).1) d rows
          (check_all-settles rows db rs (pending-targets db old) e)
          (In-keep_if (is_pending app) d db.deliveries m waits) in
      All-of_In _ (check_all o app report rows db).1.deliveries (λ r n same.
        not_pending (str_eq r.app_name app) (is_some r.finding_resolution)
          (not (is_empty r.target_findings)) r.opened_pr
          (All-In (IsSettledRow d.id true) r (check_all o app report rows db).1.deliveries
            settled.rows n same refl))
    where
      not_pending : (a b c p : Bool) → b ≡ true → (a && not b && c && p) ≡ false
      not_pending a b c p h = ground arith
