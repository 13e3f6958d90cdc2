-- ===== src/Store/Skills.antt =====
-- The table `skill_effectiveness` of portal/store/skills.py, and the cool-down of a skill that
-- repeats a reject. Times are whole microseconds. The theorems stand in Skills/Cooldown and
-- Skills/Clearing; Skills/Listing is the listing of the skills that cool down.
pub mod Cooldown
pub mod Clearing
pub mod Listing
use agent_it.Base.{
  ℕ, ◌+◌, ◌≤◌, String, Bool, true, false, ◌&&◌, ◌||◌, not, Option, none, some, List, [], ◌∷◌, ◌++◌,
  map, keep_if, any, max, first_that, first_some, ltb, leb, if◌then◌else◌, lookup, insert, get_or,
  is_some, string_eq, str_eq, is_empty_text, contains, prefix, strip, before, lower, ◌++ₛ◌,
}

pub record Outcome : Type 0 where
  pub skill_name : String
  pub app_name : String
  pub outcome : String
  pub reason : String
  pub created_at : ℕ

abbrev pub Outcomes : Type 0
Outcomes = List Outcome

abbrev pub cooldown_cleared : String
cooldown_cleared = "cooldown_cleared"

abbrev pub skill_cooldown_same_reason : ℕ
skill_cooldown_same_reason = 2

abbrev stable_reject_prefixes : List String
stable_reject_prefixes =
    "finding still present after merge" ∷ "finding cleared after merge" ∷ "clear-evidence"
    ∷ "pr closed without merge" ∷ []

abbrev separators : List String
separators = " — " ∷ " - " ∷ ": " ∷ " (" ∷ []

-- the text before the first of the separators that occurs, cut to 64 characters
abbrev cut_at : Option String → String → String
cut_at none text = prefix 64 text
cut_at (some sep) text = prefix 64 (strip (before sep text))

abbrev stable_or : Option String → String → String
stable_or (some stable) text = stable
stable_or none text = cut_at (first_that (contains text) separators) text

abbrev key_of_text : String → String
key_of_text text =
    if is_empty_text text
    then ""
    else stable_or (first_that (contains text) stable_reject_prefixes) text

unfoldable pub skill_reject_reason_prefix : String → String
skill_reject_reason_prefix reason = key_of_text (lower (strip reason))

unfoldable pub record_skill_outcome : String → String → String → String → ℕ → Outcomes → Outcomes
record_skill_outcome skill app outcome reason now rows =
    rows
    ++ (record {
      skill_name = skill;
      app_name = app;
      outcome = outcome;
      reason = reason;
      created_at = now;
    }
        ∷ [])

-- `WHERE app_name = … AND skill_name = … AND outcome = …`
abbrev pub is_row : String → String → String → Outcome → Bool
is_row app skill outcome r =
    str_eq r.app_name app && str_eq r.skill_name skill && str_eq r.outcome outcome

abbrev pub later : Option ℕ → ℕ → Option ℕ
later none t = some t
later (some u) t = some (max u t)

-- `SELECT MAX(created_at) …` of the clearing rows of a pair
abbrev pub last_cleared : String → String → Option ℕ → Outcomes → Option ℕ
last_cleared app skill since [] = since
last_cleared app skill since (r ∷ rows) =
    if is_row app skill cooldown_cleared r
    then last_cleared app skill (later since r.created_at) rows
    else last_cleared app skill since rows

abbrev pub is_after : Option ℕ → ℕ → Bool
is_after none t = true
is_after (some u) t = ltb u t

-- The rejects of a pair that count: those after the last clearing row.
unfoldable pub counted_rejects : String → String → Outcomes → Outcomes
counted_rejects app skill rows =
    let since = last_cleared app skill none rows in
    keep_if (λ (r : Outcome). is_row app skill "rejected" r && is_after since r.created_at) rows

-- `counts[prefix] += 1` for each prefix that is not empty
unfoldable pub count_from : List (String × ℕ) → List String → List (String × ℕ)
count_from counts [] = counts
count_from counts (p ∷ prefixes) =
    let rest = count_from counts prefixes in
    let counted = count_from (insert p (get_or 0 (lookup p counts) + 1) counts) prefixes in
    if is_empty_text p then rest else counted

-- `counts.most_common(1)[0]`: the first of the entries with the greatest count
abbrev pub better : String × ℕ → Option (String × ℕ) → Option (String × ℕ)
better e none = some e
better e (some f) = if ltb e.1 f.1 then some f else some e

abbrev pub most_common : List (String × ℕ) → Option (String × ℕ)
most_common [] = none
most_common (e ∷ counts) = better e (most_common counts)

pub record CooldownInfo : Type 0 where
  pub skill_name : String
  pub app_name : String
  pub reason_prefix : String
  pub count : ℕ

abbrev pub cooldown_of : String → String → ℕ → Option (String × ℕ) → Option CooldownInfo
cooldown_of app skill threshold none = none
cooldown_of app skill threshold (some (p, n)) =
    if ltb n threshold
    then none
    else some (record { skill_name = skill; app_name = app; reason_prefix = p; count = n })

abbrev pub prefixes_of : Outcomes → List String
prefixes_of rows = map (λ (r : Outcome). skill_reject_reason_prefix r.reason) rows

unfoldable pub get_skill_cooldown : String → String → ℕ → Outcomes → Option CooldownInfo
unfolding count_from counted_rejects
get_skill_cooldown app skill threshold rows =
    cooldown_of app skill threshold
      (most_common (count_from [] (prefixes_of (counted_rejects app skill rows))))

unfoldable pub is_skill_cooling_down : String → String → ℕ → Outcomes → Bool
unfolding get_skill_cooldown
is_skill_cooling_down app skill threshold rows =
    is_some (get_skill_cooldown app skill threshold rows)

abbrev pub or_unknown : String → String
or_unknown actor = if is_empty_text actor then "unknown" else actor

pub record Cleared : Type 0 where
  pub actor : String
  pub reason : String
  pub cleared_at : ℕ
  pub info_before : Option CooldownInfo

-- The row that a clearing inserts.
abbrev pub clearing_row : String → String → String → String → ℕ → Outcome
clearing_row app skill reason actor now = record {
  skill_name = skill;
  app_name = app;
  outcome = cooldown_cleared;
  reason = "cooldown cleared by " ++ₛ actor ++ₛ ": " ++ₛ reason;
  created_at = now;
}

abbrev pub clearing : String → String → String → String → ℕ → Outcomes → Cleared × Outcomes
unfolding get_skill_cooldown
clearing app skill reason actor now rows = (
  record {
    actor = actor;
    reason = reason;
    cleared_at = now;
    info_before = get_skill_cooldown app skill skill_cooldown_same_reason rows;
  },
  rows ++ clearing_row app skill reason actor now ∷ [],
)

-- A blank reason raises `ValueError`: `none`.
unfoldable pub clear_skill_cooldown :
    String → String → String → String → ℕ → Outcomes → Option (Cleared × Outcomes)
clear_skill_cooldown app skill reason actor now rows =
    if is_empty_text (strip reason)
    then none
    else some (clearing app skill (strip reason) (or_unknown (strip actor)) now rows)
