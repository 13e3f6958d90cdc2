-- ===== src/Verify/Failures/Retries.antt =====
-- A finding is fixed again only while it failed less often than the threshold.
use agent_it.Base.{
  ℕ, ◌<◌, String, Bool, true, false, ◌||◌, Option, List, [], ◌∷◌, ◌≡◌, ◌⊎◌, inl, inr, refl, sym, ap,
  ◌∙◌, arith, leb, str_eq, eq_iff, Bool-cases, subst,
}
use agent_it.Registry.{FindingKey}
use agent_it.Diff.{AssessmentReport}
use agent_it.Delivery.Route.{Result, ok, raised}
use agent_it.Store.Deliveries.{get_finding_failure_count}
use agent_it.Store.Skills.{CooldownInfo}
use agent_it.Verify.{Db}
use agent_it.Verify.Dispatch.{Outside}
use agent_it.Verify.Redispatch.{
  Decision, escalated, redispatched, Redispatched, Exec, continue, handle_confirmed_finding_failure,
  finding_escalation_threshold,
}
use agent_it.Verify.Recheck.{Checked, handle_each}
use agent_it.Verify.Kept.{Kept}
use agent_it.Verify.Kept.Handle.{handle-keeps}
use agent_it.Verify.Failures.{failures, failures-le, failures-Stable}

-- One of the decisions on the keys is one more fix for the category.
abbrev pub refixes : String → List FindingKey → List Decision → Bool
refixes category (k ∷ keys) (redispatched n r ∷ ds) =
    str_eq k.0 category || refixes category keys ds
refixes category (k ∷ keys) (escalated e n b ∷ ds) = refixes category keys ds
refixes category _ _ = false

abbrev pub refixed : String → Checked → Bool
refixed category r = refixes category r.outcome.still_present_findings r.escalations

-- A chain that returns, as its two parts.
pub continue-ok :
    {A B : Type 0} (m : Result A × Db) (f : A → Exec B) (b : B)
    → (continue m.0 f m.1).0 ≡ ok b
    → (a : A) × (m.0 ≡ ok a) × ((f a m.1).0 ≡ ok b) × (continue m.0 f m.1 ≡ f a m.1)
continue-ok (ok a, db) f b e = (a, refl, e, refl)
continue-ok (raised x, db) f b e = absurd (cc)

pub ok-injective : {A : Type 0} {a b : A} → ok a ≡ ok b → a ≡ b
ok-injective e = cc

module _ (o : Outside) (app : String) where
  handle-few :
      (finding : FindingKey) (db : Db) (n : ℕ) (r : Redispatched)
      → (handle_confirmed_finding_failure o app finding db).0 ≡ ok (redispatched n r)
      → get_finding_failure_count app finding.0 db.deliveries < finding_escalation_threshold
  unfolding handle_confirmed_finding_failure
  handle-few finding db n r e =
      elim (Bool-cases (leb 3 (get_finding_failure_count app finding.0 db.deliveries))) [
        | inl often ↦ absurd (escalation-ne (rw often at e))
        | inr few ↦ ground (arith, few)
      ]
    where
      escalation-ne :
          {x n : ℕ} {c : Option CooldownInfo} {m : ℕ} {r : Redispatched}
          → ok (escalated x n c) ≡ ok (redispatched m r)
          → ⊥
      escalation-ne e = cc

  module _ (low : ℕ) (report : AssessmentReport) (category : String) where
    of_decision :
        (k : FindingKey) (keys : List FindingKey) (d : Decision) (ds : List Decision)
        → refixes category (k ∷ keys) (d ∷ ds) ≡ true
        → ((n : ℕ) × (r : Redispatched) × (d ≡ redispatched n r) × (k.0 ≡ category))
          ⊎ (refixes category keys ds ≡ true)
    of_decision k keys (escalated e n b) ds h = inr h
    of_decision k keys (redispatched n r) ds h = elim (Bool-cases (str_eq k.0 category)) [
      | inl e ↦ inl (n, r, refl, (eq_iff k.0 category).0 e)
      | inr e ↦ inr (rw e at h)
    ]

    -- Where a finding of the category is fixed again, the old failures are below the threshold.
    pub handle_each-few :
        (keys : List FindingKey) (db : Db) (ds : List Decision) (n : ℕ)
        → Kept low (λ rows. failures low app category rows ≡ n) db
        → (handle_each o app report keys db).0 ≡ ok ds
        → refixes category keys ds ≡ true
        → n < finding_escalation_threshold
    unfolding handle_each
    handle_each-few [] db ds n kept e h = absurd (cc)
    handle_each-few (k ∷ keys) db ds n kept e h =
        let (d, first, rest, _) =
          continue-ok (handle_confirmed_finding_failure o app k db) _ ds e in
        let db2 = (handle_confirmed_finding_failure o app k db).1 in
        let (ds2, second, last, _) = continue-ok (handle_each o app report keys db2) _ ds rest in
        elim (of_decision k keys d ds2 (
          subst (λ (l : List Decision). refixes category (k ∷ keys) l ≡ true)
            (sym (ok-injective last)) h)) [
              | inl (m, r, same, cat) ↦ omega (
                arith,
                kept.rows,
                failures-le low app category db.deliveries,
                subst (λ (c : String). get_finding_failure_count app c db.deliveries < 3) cat
                    (handle-few k db m r (first ∙ ap ok same)),
              )
              | inr later ↦
                  handle_each-few keys db2 ds2 n
                    (handle-keeps low _ (failures-Stable low app category n) app o k db kept) second
                    later
            ]
