-- ===== src/Verify/Settled.antt =====
-- A delivery whose findings were checked is never checked again.
pub mod Check
use agent_it.Base.{
  ℕ, suc, ◌≤◌, ◌<◌, String, Bool, true, false, Option, none, some, List, [], ◌∷◌, ◌++◌, ◌≡◌, ◌⊎◌,
  inl, inr, refl, sym, ap, ◌∙◌, arith, max, map, ◌==◌, ==_refl, if◌then◌else◌, is_some, All,
  All-append, All-map,
}
use agent_it.Registry.{FindingKey}
use agent_it.Diff.{AssessmentReport}
use agent_it.Delivery.{Entry}
use agent_it.Delivery.Route.{
  Result, ok, raised, claim, create, deliver, update, schedule, release, Trace,
}
use agent_it.Store.Deliveries.{Delivery, Deliveries, create_delivery, update_delivery, updated}
use agent_it.Store.Skills.{CooldownInfo}
use agent_it.Store.Events.{Event}
use agent_it.Verify.{Db, log_outcome}
use agent_it.Verify.Kept.{Stable, Kept}
use agent_it.Verify.Escalation.{escalate_unresolved_finding, escalate_over, open_escalation}
use agent_it.Verify.Dispatch.{Outside, dispatch}
use agent_it.Verify.Redispatch.{
  Exec, continue, replay, routed, blocked_or_again, deliver_fix, redispatch_finding_fix,
  handle_confirmed_finding_failure,
}
use agent_it.Verify.Correlate.{
  Correlation, Status, unknown, pending, resolved, still_present, correlate_delivery_finding,
}
use agent_it.Verify.Recheck.{
  handle_each, mark, recorded, on_resolved, on_still_present, check_by, check_delivery, check_all,
}

-- Where `on` holds: if this is the row `i`, it has a resolution.
abbrev pub IsSettledRow : ℕ → Bool → Delivery → Type 0
IsSettledRow i on d = d.id ≡ i → on ≡ true → is_some d.finding_resolution ≡ true

abbrev pub IsSettled : ℕ → Bool → Db → Type 0
IsSettled i on db = Kept (suc i) (All (IsSettledRow i on)) db

updated-settles :
    (s r : Option String) (pr : Bool) (d : Delivery)
    → (is_some r ≡ true) ⊎ (is_some d.finding_resolution ≡ true)
    → is_some (updated s r pr d).finding_resolution ≡ true
updated-settles s (some r) pr d h = refl
updated-settles s none pr d (inr h) = h
updated-settles s none pr d (inl h) = absurd (cc)

updated-id :
    (b : Bool) (s r : Option String) (pr : Bool) (d : Delivery)
    → (if b then updated s r pr d else d).id ≡ d.id
updated-id true s r pr d = refl
updated-id false s r pr d = refl

pub update-keeps :
    (i j : ℕ) (on : Bool) (s r : Option String) (pr : Bool) (rows : Deliveries)
    → All (IsSettledRow i on) rows
    → All (IsSettledRow i on) (update_delivery j s r pr rows)
unfolding update_delivery
update-keeps i j on s r pr rows h =
    All-map (IsSettledRow i on) (IsSettledRow i on) _ rows
      (λ d p e u. of_row d (d.id == j) p (sym (updated-id (d.id == j) s r pr d) ∙ e) u) h
  where
    of_row :
        (d : Delivery) (b : Bool)
        → IsSettledRow i on d
        → d.id ≡ i
        → on ≡ true
        → is_some (if b then updated s r pr d else d).finding_resolution ≡ true
    of_row d true p e u = updated-settles s r pr d (inr (p e u))
    of_row d false p e u = p e u

pub update-settles :
    (i : ℕ) (on : Bool) (s : Option String) (r : String) (pr : Bool) (rows : Deliveries)
    → All (IsSettledRow i on) (update_delivery i s (some r) pr rows)
unfolding update_delivery
update-settles i on s r pr rows =
    All-map (λ (d : Delivery). Unit {0}) (IsSettledRow i on) _ rows
      (λ d p e u. of_row d (sym (updated-id (d.id == i) s (some r) pr d) ∙ e)) (always rows)
  where
    always : (rows : Deliveries) → All (λ (d : Delivery). Unit {0}) rows
    always [] = tt
    always (d ∷ rows) = (tt, always rows)

    of_row :
        (d : Delivery)
        → d.id ≡ i
        → is_some (if d.id == i then updated s (some r) pr d else d).finding_resolution ≡ true
    of_row d e = rw (ap (λ (n : ℕ). n == i) e ∙ ==_refl i) refl

create-keeps :
    (i row : ℕ) (on : Bool) (app : String) (keys : List FindingKey) (rows : Deliveries)
    → i < row
    → All (IsSettledRow i on) rows
    → All (IsSettledRow i on) (create_delivery row app keys rows)
unfolding create_delivery
create-keeps i row on app keys rows lt h =
    All-append (IsSettledRow i on) rows _ h ((λ e u. absurd (omega (arith, e, lt))), tt)

pub stable : (i : ℕ) (on : Bool) → Stable (suc i) (All (IsSettledRow i on))
stable i on = record {
  creates = λ row app keys rows lt h. create-keeps i row on app keys rows lt h;
  updates = λ row s r pr rows lt h. update-keeps i row on s r pr rows h;
}
