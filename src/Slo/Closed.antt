-- ===== src/Slo/Closed.antt =====
-- How a delivery is closed after the watch.
use agent_it.Base.{
  ℕ, String, Bool, true, false, Option, none, some, ◌≡◌, ◌≢◌, All, All-In, All-map, In, get_or,
  ◌==◌, if◌then◌else◌,
}
use agent_it.Store.Deliveries.{Delivery, Deliveries, update_delivery, updated}
use agent_it.Verify.{Db, log_outcome}
use agent_it.Slo.{
  World, Result, healthy, breached, raised, verify_slos, verify_max_polls, close_by,
  verify_and_close_delivery,
}
use agent_it.Slo.Verdict.{AreQuiet, IsVerdict, all_quiet, verify_slos-IsVerdict}

unverified_row :
    (b : Bool) (s : Option String) (r : Delivery)
    → get_or "" s ≢ "verified"
    → r.status ≢ "verified"
    → (if b then updated s none false r else r).status ≢ "verified"
unverified_row true none r ne k = k
unverified_row true (some s) r ne k = ne
unverified_row false s r ne k = k

unverified :
    (id : ℕ) (s : Option String) (rows : Deliveries)
    → get_or "" s ≢ "verified"
    → All (λ (r : Delivery). r.status ≢ "verified") rows
    → All (λ (r : Delivery). r.status ≢ "verified") (update_delivery id s none false rows)
unfolding update_delivery
unverified id s rows ne h =
    All-map _ (λ (r : Delivery). r.status ≢ "verified") _ rows
      (λ r k. unverified_row (r.id == id) s r ne k) h

-- Where no delivery was verified before, one that is verified afterwards had twelve quiet polls: in
-- each of them the rows were read, and no row was breached.
pub verify_and_close_delivery-quiet :
    (w : World) (id : ℕ) (app mechanism : String) (db : Db) (d : Delivery)
    → All (λ (r : Delivery). r.status ≢ "verified") db.deliveries
    → In d (verify_and_close_delivery w id app mechanism db).1.deliveries
    → d.status ≡ "verified"
    → AreQuiet w 0 verify_max_polls
unfolding verify_and_close_delivery log_outcome
verify_and_close_delivery-quiet w id app mechanism db d h m e =
    by_verdict (verify_slos w).0 (verify_slos-IsVerdict w) m
  where
    absurd_at :
        (s : Option String)
        → get_or "" s ≢ "verified"
        → In d (update_delivery id s none false db.deliveries)
        → ⊥
    absurd_at s ne n = All-In _ d _ (unverified id s db.deliveries ne h) n e

    by_verdict :
        (r : Result)
        → IsVerdict w 0 verify_max_polls r
        → In d (close_by r id app mechanism db).deliveries
        → AreQuiet w 0 verify_max_polls
    by_verdict healthy (all_quiet q) n = q
    by_verdict (breached metrics) v n = absurd (absurd_at (some "breach-reported") (λ k. cc) n)
    by_verdict raised v n = absurd (absurd_at none (λ k. cc) n)
