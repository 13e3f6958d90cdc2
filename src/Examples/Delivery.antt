-- ===== src/Examples/Delivery.antt =====
-- A batch of four files in src/agentit/portal/delivery.py.
use agent_it.Base.{
  String, Bool, true, false, Option, some, none, List, [], ◌∷◌, ◌≡◌, refl, All, if◌then◌else◌,
}
use agent_it.Delivery.{
  Entry, Tools, cluster_config, secret_blocked, classify_file, preview_delivery_groups,
  PreviewGroup, infra_repo_commit, without_placeholders, FileCategory, deliverable_groups,
  has_unresolved_placeholders, repo_kind_for_mechanism,
}
use agent_it.Delivery.Groups.{group_at, of_category, files_of, preview_delivery_groups-files}
use agent_it.Delivery.Route.{World, Step, claim, release, route_and_deliver, refused, lock_key}
use agent_it.Delivery.Route.Quiet.{lock_steps}
use agent_it.Delivery.Route.Locking.{route_and_deliver-releases}
use agent_it.Delivery.Route.Refusals.{Sound, route_and_deliver-IsSound}
use agent_it.Examples.{tools, policy, batch}

abbrev shown : PreviewGroup
shown = record { files = policy ∷ []; mechanism = infra_repo_commit; repo_kind = "gitops" }

shown_in_batch :
    group_at cluster_config (preview_delivery_groups tools (some "infra") false batch) ≡ some shown
unfolding preview_delivery_groups agent_it.Base.lookup deliverable_groups agent_it.Base.remove
    agent_it.Base.group_from agent_it.Base.insert classify_file agent_it.Base.lower
    agent_it.Base.contains agent_it.Delivery.parse_manifest agent_it.Delivery.preview_group
    without_placeholders has_unresolved_placeholders agent_it.Delivery.mechanism_for
    agent_it.Delivery.resolve_cluster_config_mechanism repo_kind_for_mechanism
shown_in_batch = refl

preview_delivery_groups-files_example :
    files_of (group_at cluster_config (preview_delivery_groups tools (some "infra") false batch))
    ≡ without_placeholders tools (of_category tools cluster_config batch)
preview_delivery_groups-files_example =
    preview_delivery_groups-files tools (some "infra") false cluster_config batch

-- A fleet application, whose pull request fails.
abbrev world : Bool → (Step → Bool) → World
world claimed fails = record {
  tools = tools;
  path_name = λ path. path;
  infra_repo_url = some "infra";
  self_managed = false;
  has_report = true;
  claimed = claimed;
  fails = fails;
  outcome = λ c. refused "push rejected";
}

abbrev nothing_fails : Step → Bool
nothing_fails s = false

route_and_deliver-releases_example :
    lock_steps (route_and_deliver (world true nothing_fails) batch "shop" false []).1
    ≡ release (lock_key "shop") ∷ claim (lock_key "shop") ∷ []
route_and_deliver-releases_example =
    route_and_deliver-releases (world true nothing_fails) batch "shop" [] refl refl refl

route_and_deliver-IsSound_example :
    All
      (Sound (world true nothing_fails) batch)
      (route_and_deliver (world true nothing_fails) batch "shop" false []).1
route_and_deliver-IsSound_example =
    route_and_deliver-IsSound (world true nothing_fails) batch "shop" false
