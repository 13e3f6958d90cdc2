-- ===== src/Examples/Slo.antt =====
-- The watch after a delivery in src/agentit/remediation_loop.py.
use agent_it.Base.{String, false, some, none, [], ◌∷◌, inl, refl}
use agent_it.Store.Deliveries.{Delivery}
use agent_it.Verify.{Db}
use agent_it.Slo.{World, value, verify_slos, verify_max_polls, verify_and_close_delivery}
use agent_it.Slo.Verdict.{IsVerdict, AreQuiet, verify_slos-IsVerdict}
use agent_it.Slo.Closed.{verify_and_close_delivery-quiet}

abbrev calm : World
calm = record {
  listed = λ _. some (record { id = 1; metric_name = "availability"; target_value = 95000 } ∷ []);
  collect_slo = λ _ _. value 99000;
}

verify_slos-IsVerdict_example : IsVerdict calm 0 verify_max_polls (verify_slos calm).0
verify_slos-IsVerdict_example = verify_slos-IsVerdict calm

abbrev merged_delivery : String → Delivery
merged_delivery status = record {
  id = 4;
  app_name = "shop";
  status = status;
  target_findings = [];
  finding_resolution = none;
  opened_pr = false;
}

abbrev one_delivery : Db
one_delivery = record {
  fresh = 5;
  deliveries = merged_delivery "delivered" ∷ [];
  events = [];
  skills = [];
  locks = [];
}

verify_and_close_delivery-quiet_example : AreQuiet calm 0 verify_max_polls
unfolding verify_and_close_delivery
verify_and_close_delivery-quiet_example =
    verify_and_close_delivery-quiet calm 4 "shop" "infra-repo-commit" one_delivery
      (merged_delivery "verified") ((λ e. cc), tt) (inl refl) refl
