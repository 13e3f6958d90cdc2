-- ===== src/Store/Deliveries.antt =====
-- The table `deliveries` of portal/store/deliveries.py, with the columns that the check of the
-- findings reads.
use agent_it.Base.{
  ℕ, String, Bool, true, false, ◌&&◌, not, Option, none, some, List, [], ◌∷◌, ◌++◌, ◌==◌, map, any,
  keep_if, count_if, is_some, is_empty, get_or, str_eq, if◌then◌else◌,
}
use agent_it.Registry.{FindingKey}

-- `opened_pr` says whether an outcome among the details has a `pr_url`.
pub record Delivery : Type 0 where
  pub id : ℕ
  pub app_name : String
  pub status : String
  pub target_findings : List FindingKey
  pub finding_resolution : Option String
  pub opened_pr : Bool

abbrev pub Deliveries : Type 0
Deliveries = List Delivery

-- The identifier is a fresh uuid: here, a fresh number.
unfoldable pub create_delivery : ℕ → String → List FindingKey → Deliveries → Deliveries
create_delivery id app target_findings rows =
    rows
    ++ (record {
      id = id;
      app_name = app;
      status = "in_progress";
      target_findings = target_findings;
      finding_resolution = none;
      opened_pr = false;
    }
        ∷ [])

abbrev coalesce : {A : Type 0} → Option A → Option A → Option A
coalesce none old = old
coalesce (some new) old = some new

abbrev pub updated : Option String → Option String → Bool → Delivery → Delivery
updated status finding_resolution opened_pr d = record d {
  status = get_or d.status status;
  finding_resolution = coalesce finding_resolution d.finding_resolution;
  opened_pr = if opened_pr then true else d.opened_pr;
}

-- `opened_pr` says whether the merged details bring a `pr_url`.
unfoldable pub update_delivery : ℕ → Option String → Option String → Bool → Deliveries → Deliveries
update_delivery id status finding_resolution opened_pr rows =
    map (λ (d : Delivery). if d.id == id then updated status finding_resolution opened_pr d else d)
      rows

abbrev pub is_pending : String → Delivery → Bool
is_pending app d =
    str_eq d.app_name app
    && not (is_some d.finding_resolution)
    && not (is_empty d.target_findings)
    && d.opened_pr

unfoldable pub list_deliveries_pending_finding_check : String → Deliveries → Deliveries
list_deliveries_pending_finding_check app rows = keep_if (is_pending app) rows

abbrev pub is_still_present : Option String → Bool
is_still_present none = false
is_still_present (some r) = str_eq r "still_present"

abbrev pub targets : String → List FindingKey → Bool
targets category keys = any (λ (k : FindingKey). str_eq k.0 category) keys

abbrev pub is_failure : String → String → Delivery → Bool
is_failure app category d =
    str_eq d.app_name app
    && is_still_present d.finding_resolution
    && targets category d.target_findings

unfoldable pub get_finding_failure_count : String → String → Deliveries → ℕ
get_finding_failure_count app category rows = count_if (is_failure app category) rows
