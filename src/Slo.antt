-- ===== src/Slo.antt =====
-- The watch after a delivery: `verify_slos` of src/agentit/remediation_loop.py, `is_breached` of
-- src/agentit/slo_collector.py and `verify_and_close_delivery` of src/agentit/portal/delivery.py.
-- Values are thousandths. The theorems stand in Slo/Verdict and
-- Slo/Closed.
pub mod Verdict
pub mod Closed
use Prim.Native.Nat.{zero, suc}
use agent_it.Base.{
  ℕ, ◌+◌, String, Bool, true, false, Option, none, some, List, [], ◌∷◌, ltb, get_or, lookup,
  string_eq, if◌then◌else◌, ◌++ₛ◌, show, join, length,
}
use agent_it.Store.Deliveries.{update_delivery}
use agent_it.Verify.{Db, log_outcome}

abbrev higher_is_better : List (String × Bool)
higher_is_better = ("availability", true) ∷ ("error_rate", false) ∷ ("latency_p99_ms", false) ∷ []

unfoldable pub is_breached : String → ℕ → ℕ → Bool
unfolding lookup
is_breached metric_name current_value target_value =
    if get_or false (lookup metric_name higher_is_better)
    then ltb current_value target_value
    else ltb target_value current_value

pub record Slo : Type 0 where
  pub id : ℕ
  pub metric_name : String
  pub target_value : ℕ

-- What `collect_slo` gives.
pub data Reading : Type 0 where
  value : ℕ → Reading
  missing : Reading
  failing : Reading

-- The answers of `list_slos` (`none` where it raises) and of `collect_slo` at each poll.
pub record World : Type 0 where
  pub listed : ℕ → Option (List Slo)
  pub collect_slo : ℕ → String → Reading

-- The calls of `update_slo`, newest first: the row, its value, and whether it is breached.
abbrev pub Updates : Type 0
Updates = List (ℕ × ℕ × Bool)

abbrev pub Exec : Type 0
Exec = Updates → Option (List String) × Updates

abbrev pub with_metric : Bool → String → Option (List String) → Option (List String)
with_metric b metric_name none = none
with_metric b metric_name (some rest) = some (if b then metric_name ∷ rest else rest)

abbrev pub poll_slo : Reading → Slo → Exec → Exec
poll_slo failing s rest updates = (none, updates)
poll_slo missing s rest updates = rest updates
poll_slo (value v) s rest updates =
    let breached = is_breached s.metric_name v s.target_value in
    let (metrics, after) = rest ((s.id, v, breached) ∷ updates) in
    (with_metric breached s.metric_name metrics, after)

-- One poll: the metrics that are breached, or `none` where a call raises. All rows are read.
unfoldable pub poll_slos : (String → Reading) → List Slo → Exec
unfolding is_breached
poll_slos reading [] updates = (some [], updates)
poll_slos reading (s ∷ slos) updates =
    poll_slo (reading s.metric_name) s (poll_slos reading slos) updates

-- The result of the watch: `breached` names the metrics, and `raised` is an exception.
pub data Result : Type 0 where
  healthy : Result
  breached : List String → Result
  raised : Result

abbrev pub verify_max_polls : ℕ
verify_max_polls = 12

abbrev pub of_poll :
    Option (List String) × Updates → (Updates → Result × Updates) → Result × Updates
of_poll (none, updates) next = (raised, updates)
of_poll (some [], updates) next = next updates
of_poll (some (m ∷ metrics), updates) next = (breached (m ∷ metrics), updates)

abbrev pub of_listed :
    (String → Reading)
    → Option (List Slo)
    → (Updates → Result × Updates)
    → Updates
    → Result × Updates
of_listed reading none next updates = (raised, updates)
of_listed reading (some slos) next updates = of_poll (poll_slos reading slos updates) next

-- `left` more polls from poll `i` on.
unfoldable pub watch : World → ℕ → ℕ → Updates → Result × Updates
unfolding poll_slos
watch w zero i updates = (healthy, updates)
watch w (suc left) i updates =
    of_listed (w.collect_slo i) (w.listed i) (watch w left (i + 1)) updates

unfoldable pub verify_slos : World → Result × Updates
unfolding watch
verify_slos w = watch w verify_max_polls 0 []

abbrev reason_of : List String → String
reason_of metrics = show (length metrics) ++ₛ " SLO(s) breached: " ++ₛ join ", " metrics

abbrev pub close_by : Result → ℕ → String → String → Db → Db
close_by raised id app mechanism db = record db {
  deliveries = update_delivery id none none false db.deliveries;
}
close_by healthy id app mechanism db =
    (log_outcome app "delivery-verified" "info"
      ("Delivery "
        ++ₛ show id
        ++ₛ " verified healthy after "
        ++ₛ mechanism
        ++ₛ " -- no SLO breach detected")
      (record db { deliveries = update_delivery id (some "verified") none false db.deliveries })).1
close_by (breached metrics) id app mechanism db =
    (log_outcome app "delivery-breach-reported" "critical"
      ("Delivery "
        ++ₛ show id
        ++ₛ " breached SLOs after "
        ++ₛ mechanism
        ++ₛ " -- no automatic rollback for GitOps deliveries ("
        ++ₛ reason_of metrics
        ++ₛ "); manual review needed")
      (record db {
        deliveries = update_delivery id (some "breach-reported") none false db.deliveries;
      })).1

-- The columns `verification` and `details` of a delivery are the result that is returned.
unfoldable pub verify_and_close_delivery : World → ℕ → String → String → Db → Result × Db
unfolding verify_slos log_outcome update_delivery
verify_and_close_delivery w id app mechanism db =
    let result = (verify_slos w).0 in (result, close_by result id app mechanism db)
