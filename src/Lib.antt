-- ===== src/Lib.antt =====
-- AgentIT assesses applications, generates fixes for its findings, and delivers them by pull requests.
-- This library models the part that decides: which findings have a fix, which generated files may ride
-- in a pull request, by which mechanism each file is delivered, how a delivery runs, and what happens
-- to its findings on the next assessment.
--
-- Registry: agentit/remediation/registry.py. `contract_for`, `lookup`, `remediable_findings` and
--   `expected_clear_lines` have the names of the source; the table `SOLUTION_CONTRACTS` stands row by row
--   in Registry/Table, as an association list.
-- Delivery: agentit/portal/delivery.py. `classify_file`, the mechanisms, and
--   `preview_delivery_groups`. A generated-file dict is the record `Entry`, with `none` for a missing
--   key. Delivery/Route is `route_and_deliver`: each awaited call is a `Step` in a log, newest first, and
--   may raise; `World` holds which calls raise, the answer of `claim_delivery_lock`, and what
--   each mechanism returns; the step of a delivery has the files that the mechanism is given.
--   Delivery/Chart is the gate of self-managed deliveries into the Helm chart, with
--   agentit/portal/self_managed_hpa.py.
-- Quality: agentit/portal/quality_prs.py. The finding gate, the match of files with findings
--   (Quality/Match), the two tiers of files, the filter of wrong layers, the clusters
--   (Quality/Partition), the resource collisions (Quality/Collisions) and the validation verdict. It
--   takes contracts from Registry and categories of files from Delivery.
-- Store: agentit/portal/store and agentit/portal/pending_actions.py, a module per table: Store/Locks,
--   Store/Webhooks, Store/Deliveries, Store/Events, Store/Jobs, Store/Skills and
--   Store/Feedback. A table is a list of its rows in the order of their creation, and a
--   statement of SQL is a function on it; a uuid is a fresh number where a row needs one.
-- Verify: agentit/portal/delivery.py from `correlate_delivery_finding` on, with `dispatch` of
--   agentit/remediation/dispatcher.py and the attribution of agentit/skill_engine.py. `Db` holds the
--   tables, and the steps of Delivery/Route are replayed on them. `Outside` holds what the skill engine
--   generates, the world of a delivery, and the time.
-- Pulls: agentit/portal/pr_outcomes.py, with the records of agentit/portal/pr_tracking.py and
--   `parse_reject_reason` of agentit/capability_scout.py. `Github` holds the answers of the calls to
--   GitHub, which are logged; the tables stand in Store/Feedback.
-- Slo: `verify_slos` of agentit/remediation_loop.py and `verify_and_close_delivery` of
--   agentit/portal/delivery.py. `World` holds what each of the twelve polls reads.
-- Consumer: agentit/consumer.py. The consume loop over messages, each with the calls that raise at it
--   (`Faults`); `_retry_counts` and `_blocked_offset` are dictionaries, and commits and dead
--   letters are logged.
-- Diff: agentit/assessment_diff.py. Finding keys, and `diff_assessments` over the reports of
--   agentit/models.py. Overall scores are thousandths of a point.
-- Scoring: agentit/scoring.py and agentit/interfaces/score_aggregate.py. Severities, findings and scores
--   of agentit/models.py; weights are in hundredths, and the overall score is too.
-- SecretCache: agentit/secret_classify_cache.py. The cache in memory, over a list of its calls.
-- Limits: agentit/portal/rate_limit.py (Limits/Window) and agentit/interfaces/breakers.py
--   (Limits/Breaker), with whole seconds of the monotonic clock.
-- Base: Booleans, lists, texts, dictionaries in insertion order, and sorting.
-- Examples: the theorems at concrete inputs.
--
-- The loops run over lists; only the chunks of a cluster are cut by fuel, the number of the files,
-- which is enough since each chunk takes a file. Numbers are natural numbers; a claimed score delta is
-- its absolute value. Texts are native strings, and lower-casing is that of ASCII.
-- A set of categories is a list, in the order in which it is iterated. PyYAML, pathlib and the
-- patterns of `re` for placeholders are the fields of `Tools`. Metadata of a manifest is a mapping or absent.
--
-- Not modelled: the estimated gain of a fix, the confirmation texts of a preview, the reasons that
-- `strip_wrong_layer_companions` gives, the text of a PR body, the polling mode of the
-- consumer, what stands behind the calls of a delivery (GitHub, Kubernetes, language models),
-- statements of SQL that raise, and the messages to Kafka.
-- The web application, the analyzers, the agents and the command line are I/O.
pub mod Base
pub mod Registry
pub mod Delivery
pub mod Store
pub mod Verify
pub mod Quality
pub mod Pulls
pub mod Consumer
pub mod Diff
pub mod SecretCache
pub mod Slo
pub mod Scoring
pub mod Limits
pub mod Examples
