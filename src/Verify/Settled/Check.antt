-- ===== src/Verify/Settled/Check.antt =====
-- A check keeps the resolutions of the deliveries that have one.
use agent_it.Base.{ℕ, suc, All, String, Bool, false, none, some, [], ◌∷◌}
use agent_it.Diff.{AssessmentReport}
use agent_it.Store.Deliveries.{Delivery, Deliveries}
use agent_it.Verify.{Db}
use agent_it.Verify.Dispatch.{Outside}
use agent_it.Verify.Correlate.{
  Correlation, Status, unknown, pending, resolved, still_present, correlate_delivery_finding,
}
use agent_it.Verify.Recheck.{
  mark, on_resolved, on_still_present, check_by, check_delivery, check_all,
}
use agent_it.Verify.Kept.{continue-keeps}
use agent_it.Verify.Kept.Handle.{on_resolved-keeps, on_still_present-keeps}
use agent_it.Verify.Settled.{IsSettled, IsSettledRow, stable, update-keeps}

module _ (i : ℕ) (on : Bool) (app : String) (o : Outside) (report : AssessmentReport) where
  mark-keeps :
      (id : ℕ) (r : String) (db : Db)
      → IsSettled i on db
      → IsSettled i on (mark o app report id r db)
  unfolding mark
  mark-keeps id r db h = record {
    used = h.used;
    rows = update-keeps i id on none (some r) false db.deliveries h.rows;
  }

  check_by-keeps :
      (s : Status) (d : Delivery) (c : Correlation) (db : Db)
      → IsSettled i on db
      → IsSettled i on (check_by o app report s d c db).1
  check_by-keeps resolved d c db h =
      continue-keeps (suc i) (All (IsSettledRow i on)) (stable i on) app
        (on_resolved o app report d c db) _
        (on_resolved-keeps (suc i) (All (IsSettledRow i on)) (stable i on) app o report d c db
          (mark-keeps d.id "resolved" db h))
        (λ r e k. k)
  check_by-keeps still_present d c db h =
      continue-keeps (suc i) (All (IsSettledRow i on)) (stable i on) app
        (on_still_present o app report d c db) _
        (on_still_present-keeps (suc i) (All (IsSettledRow i on)) (stable i on) app o report d c db
          (mark-keeps d.id "still_present" db h))
        (λ r e k. k)
  check_by-keeps unknown d c db h = h
  check_by-keeps pending d c db h = h

  pub check_delivery-keeps :
      (d : Delivery) (db : Db)
      → IsSettled i on db
      → IsSettled i on (check_delivery o app report d db).1
  unfolding check_delivery
  check_delivery-keeps d db h =
      let c = correlate_delivery_finding d.target_findings (some report) in
      check_by-keeps c.status d c db h

  pub check_all-keeps :
      (rows : Deliveries) (db : Db)
      → IsSettled i on db
      → IsSettled i on (check_all o app report rows db).1
  unfolding check_all
  check_all-keeps [] db h = h
  check_all-keeps (d ∷ rows) db h =
      continue-keeps (suc i) (All (IsSettledRow i on)) (stable i on) app
        (check_delivery o app report d db) _ (check_delivery-keeps d db h)
        (λ r db2 h2.
          continue-keeps (suc i) (All (IsSettledRow i on)) (stable i on) app
            (check_all o app report rows db2) _ (check_all-keeps rows db2 h2) (λ rs db4 h4. h4))
