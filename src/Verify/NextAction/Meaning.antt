-- ===== src/Verify/NextAction/Meaning.antt =====
-- What each state of `get_next_action_state` says of the tables.
use agent_it.Base.{
  ℕ, ◌≤◌, ◌<◌, String, Bool, true, false, not, ◌&&◌, is_empty, is_some, subst, In-of_keep_if,
  In-append_left, Option, none, some, List, [], ◌∷◌, ◌≡◌, inl, inr, refl, sym, ap, ◌∙◌, arith,
  first_that-In, ltb, ltb→lt, get_or, str_eq, In, All, Bool-cases,
}
use agent_it.Registry.{FindingKey}
use agent_it.Store.Deliveries.{
  Delivery, is_pending, Deliveries, list_deliveries_pending_finding_check,
  get_finding_failure_count,
}
use agent_it.Store.Events.{Event, Events, list_unresolved_escalations}
use agent_it.Verify.{Db}
use agent_it.Verify.Escalation.{escalation_event_category}
use agent_it.Verify.NextAction.{
  NextAction, escalated, retrying, pending_verification, nothing, targeted, worst_from, of_worst,
  of_pending, of_escalation, escalation_of, repo_or, get_next_action_state,
}
use agent_it.Verify.NextAction.Worst.{worst_count, IsCounted, worst_from-le, worst_from-IsCounted}

-- What the state says of the tables.
module _ (app : String) (unresolved_escalations : Option Events) (db : Db) where
  abbrev pub waiting_findings : List FindingKey
  waiting_findings = targeted (list_deliveries_pending_finding_check app db.deliveries)

  abbrev pub failures : FindingKey → ℕ
  failures k = get_finding_failure_count app k.0 db.deliveries

  -- A delivery of the application waits, and with it a finding.
  abbrev pub FindingsWait : Type 0
  FindingsWait =
      (d : Delivery) × In d db.deliveries
      × (is_pending app d ≡ true)
      × ((k : FindingKey) × In k d.target_findings × In k waiting_findings)

  abbrev pub IsNext : NextAction → Type 0
  IsNext (escalated category event_id assessment_id) =
      (e : Event) × In e (get_or (list_unresolved_escalations app db.events) unresolved_escalations)
      × (str_eq e.target_app app ≡ true)
      × (e.id ≡ event_id)
      × (escalation_event_category e.summary ≡ category)
  IsNext (retrying category failure_count) =
      (escalation_of app unresolved_escalations db ≡ none)
      × (0 < failure_count)
      × ((k : FindingKey) × In k waiting_findings × (k.0 ≡ category) × (failures k ≡ failure_count))
      × All (λ (k : FindingKey). failures k ≤ failure_count) waiting_findings
  IsNext (pending_verification repo) =
      (escalation_of app unresolved_escalations db ≡ none)
      × FindingsWait
      × All (λ (k : FindingKey). failures k ≡ 0) waiting_findings
  IsNext nothing =
      (escalation_of app unresolved_escalations db ≡ none)
      × (list_deliveries_pending_finding_check app db.deliveries ≡ [])

  of_worst-IsNext :
      (w : Option (String × ℕ)) (repo : String)
      → escalation_of app unresolved_escalations db ≡ none
      → FindingsWait
      → IsCounted (λ (c : String). get_finding_failure_count app c db.deliveries) waiting_findings w
      → All (λ (k : FindingKey). failures k ≤ worst_count w) waiting_findings
      → IsNext (of_worst w repo)
  of_worst-IsNext none repo calm waits counted le = (calm, waits, none_failed waiting_findings le)
    where
      none_failed :
          (keys : List FindingKey)
          → All (λ (k : FindingKey). failures k ≤ 0) keys
          → All (λ (k : FindingKey). failures k ≡ 0) keys
      none_failed [] h = tt
      none_failed (k ∷ keys) (h, hs) = (omega (arith, h), none_failed keys hs)
  of_worst-IsNext (some (c, n)) repo calm waits (same, (k, m, named)) le =
      elim (Bool-cases (ltb 0 n)) [
        | inl failed ↦ rw failed (
          calm,
          ltb→lt 0 n failed,
          (
            k,
            m,
            named,
            ap (λ (x : String). get_finding_failure_count app x db.deliveries) named ∙ sym same,
          ),
          le,
        )
        | inr fine ↦ rw fine (calm, waits, none_failed waiting_findings (ltb-zero n fine) le)
      ]
    where
      ltb-zero : (x : ℕ) → ltb 0 x ≡ false → x ≡ 0
      ltb-zero x h = ground arith

      none_failed :
          (keys : List FindingKey)
          → n ≡ 0
          → All (λ (k : FindingKey). failures k ≤ n) keys
          → All (λ (k : FindingKey). failures k ≡ 0) keys
      none_failed [] z h = tt
      none_failed (j ∷ keys) z (h, hs) = (omega (arith, h, z), none_failed keys z hs)

  of_pending-waits :
      (d : Delivery) (rows : Deliveries)
      → list_deliveries_pending_finding_check app db.deliveries ≡ d ∷ rows
      → FindingsWait
  unfolding list_deliveries_pending_finding_check
  of_pending-waits d rows e =
      let (m, waits) =
        In-of_keep_if (is_pending app) d db.deliveries (subst (In d) (sym e) (inl refl)) in
      let (k, target) = first_target d.target_findings (
        has_targets (str_eq d.app_name app) (is_some d.finding_resolution)
          (is_empty d.target_findings) d.opened_pr waits) in
      (
        d,
        m,
        waits,
        (
          k,
          target,
          subst (λ (ds : Deliveries). In k (targeted ds)) (sym e)
              (In-append_left k d.target_findings (targeted rows) target),
        ),
      )
    where
      has_targets : (a b c p : Bool) → (a && not b && not c && p) ≡ true → c ≡ false
      has_targets a b c p h = ground arith

      first_target : (keys : List FindingKey) → is_empty keys ≡ false → (k : FindingKey) × In k keys
      first_target [] h = absurd (cc)
      first_target (k ∷ keys) h = (k, inl refl)

  of_pending-IsNext :
      (rows : Deliveries) (repo : String)
      → list_deliveries_pending_finding_check app db.deliveries ≡ rows
      → escalation_of app unresolved_escalations db ≡ none
      → IsNext (of_pending app rows repo db)
  of_pending-IsNext [] repo e calm = (calm, e)
  of_pending-IsNext (d ∷ rows) repo e calm =
      let count : String → ℕ = λ c. get_finding_failure_count app c db.deliveries in
      let keys = targeted (d ∷ rows) in
      of_worst-IsNext (worst_from count none keys) repo calm (of_pending-waits d rows e)
        (rw e (worst_from-IsCounted count keys keys none (λ k m. m) tt))
        (rw e ((worst_from-le count none keys).1))

  of_escalation-IsNext :
      (o : Option Event) (repo : String) (assessment_id : Option String)
      → escalation_of app unresolved_escalations db ≡ o
      → IsNext (of_escalation o app repo assessment_id db)
  unfolding escalation_of
  of_escalation-IsNext none repo assessment_id found =
      of_pending-IsNext (list_deliveries_pending_finding_check app db.deliveries) repo refl found
  of_escalation-IsNext (some e) repo assessment_id found =
      let (m, its) =
        first_that-In (λ (x : Event). str_eq x.target_app app)
          (get_or (list_unresolved_escalations app db.events) unresolved_escalations) e found in
      (e, m, its, refl, refl)

  -- The state "escalated" is that of an open escalation of the application; without one it is
  -- "retrying" where a finding that waits failed before, with a category that failed most often,
  -- "pending_verification" only where a delivery with a finding waits and no finding that waits
  -- failed before, and "none" only where no delivery waits.
  pub get_next_action_state-IsNext :
      (repo_url assessment_id : Option String)
      → IsNext (get_next_action_state app repo_url assessment_id unresolved_escalations db)
  unfolding get_next_action_state
  get_next_action_state-IsNext repo_url assessment_id =
      of_escalation-IsNext (escalation_of app unresolved_escalations db) (repo_or app repo_url)
        assessment_id refl
