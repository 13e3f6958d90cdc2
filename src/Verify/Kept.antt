-- ===== src/Verify/Kept.antt =====
-- What a check keeps of the deliveries: whatever new rows and their updates keep.
pub mod Handle
use agent_it.Base.{
  ℕ, ◌≤◌, ◌<◌, String, Bool, true, false, Option, none, some, List, [], ◌∷◌, ◌++◌, ◌≡◌, ◌⊎◌, inl,
  inr, refl, sym, ap, ◌∙◌, arith, max, map, ◌==◌, ==_refl, if◌then◌else◌, is_some, All, All-append,
  All-map,
}
use agent_it.Registry.{FindingKey}
use agent_it.Diff.{AssessmentReport}
use agent_it.Delivery.{Entry}
use agent_it.Delivery.Route.{
  Result, ok, raised, claim, create, deliver, update, schedule, release, Trace,
}
use agent_it.Store.Deliveries.{Delivery, Deliveries, create_delivery, update_delivery, updated}
use agent_it.Store.Skills.{CooldownInfo}
use agent_it.Store.Events.{Event}
use agent_it.Verify.{Db, log_outcome}
use agent_it.Verify.Escalation.{escalate_unresolved_finding, escalate_over, open_escalation}
use agent_it.Verify.Dispatch.{Outside, dispatch}
use agent_it.Verify.Redispatch.{
  Exec, continue, replay, routed, blocked_or_again, deliver_fix, redispatch_finding_fix,
  handle_confirmed_finding_failure,
}
use agent_it.Verify.Correlate.{
  Correlation, Status, unknown, pending, resolved, still_present, correlate_delivery_finding,
}
use agent_it.Verify.Recheck.{
  handle_each, mark, recorded, on_resolved, on_still_present, check_by, check_delivery, check_all,
}

-- A property of the rows that a new row keeps, and an update of a new row. The rows from `low` on are
-- new.
pub record Stable (low : ℕ) (Q : Deliveries → Type 0) : Type 0 where
  pub creates :
      (row : ℕ) (app : String) (keys : List FindingKey) (rows : Deliveries)
      → low ≤ row
      → Q rows
      → Q (create_delivery row app keys rows)
  pub updates :
      (row : ℕ) (s r : Option String) (pr : Bool) (rows : Deliveries)
      → low ≤ row
      → Q rows
      → Q (update_delivery row s r pr rows)

pub record Kept (low : ℕ) (Q : Deliveries → Type 0) (db : Db) : Type 0 where
  pub used : low ≤ db.fresh
  pub rows : Q db.deliveries

module _ (low : ℕ) (Q : Deliveries → Type 0) (stable : Stable low Q) (app : String) where
  pub continue-keeps :
      {A B : Type 0} (m : Result A × Db) (f : A → Exec B)
      → Kept low Q m.1
      → ((a : A) (db : Db) → Kept low Q db → Kept low Q (f a db).1)
      → Kept low Q (continue m.0 f m.1).1
  continue-keeps (ok a, db) f h keeps = keeps a db h
  continue-keeps (raised e, db) f h keeps = h

  pub log-keeps :
      (action severity summary : String) (db : Db)
      → Kept low Q db
      → Kept low Q (log_outcome app action severity summary db).1
  unfolding log_outcome
  log-keeps action severity summary db h = record { used = omega (arith, h.used); rows = h.rows }

  pub replay-keeps :
      (finding : FindingKey) (now row : ℕ) (trace : Trace) (db : Db)
      → low ≤ row
      → Kept low Q db
      → Kept low Q (replay app finding now row trace db)
  unfolding replay
  replay-keeps finding now row [] db lt h = h
  replay-keeps finding now row (claim key ∷ trace) db lt h =
      let kept = replay-keeps finding now row trace db lt h in
      record { used = kept.used; rows = kept.rows }
  replay-keeps finding now row (create ∷ trace) db lt h = record {
    used = omega (arith, lt);
    rows =
        stable.creates row app (finding ∷ []) _ lt
          ((replay-keeps finding now row trace db lt h).rows);
  }
  replay-keeps finding now row (deliver c m files ∷ trace) db lt h =
      replay-keeps finding now row trace db lt h
  replay-keeps finding now row (update s r ∷ trace) db lt h =
      let kept = replay-keeps finding now row trace db lt h in
      record { used = kept.used; rows = stable.updates row _ _ _ _ lt kept.rows }
  replay-keeps finding now row (schedule ∷ trace) db lt h =
      replay-keeps finding now row trace db lt h
  replay-keeps finding now row (release key ∷ trace) db lt h =
      let kept = replay-keeps finding now row trace db lt h in
      record { used = kept.used; rows = kept.rows }

  pub if-keeps :
      {A : Type 0} (b : Bool) (m n : Result A × Db)
      → Kept low Q m.1
      → Kept low Q n.1
      → Kept low Q (if b then m else n).1
  if-keeps true m n h k = h
  if-keeps false m n h k = k
