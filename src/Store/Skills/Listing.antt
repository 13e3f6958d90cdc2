-- ===== src/Store/Skills/Listing.antt =====
-- The listing of the skills that cool down, in portal/store/skills.py. The theorem stands in
-- Listing/Agrees.
pub mod Times
mod Counted
mod Entries
pub mod Agrees
use Prim.Native.String.{compare}
use text.Mathlib.Text.{is_le}
use agent_it.Base.{
  ℕ, ◌+◌, String, Bool, true, false, ◌&&◌, ◌||◌, not, Option, none, some, List, [], ◌∷◌, keep_if,
  ltb, if◌then◌else◌, lookup, insert, get_or, string_eq, pair_eq, Eq, str_eq, is_empty_text,
  sort_with,
}
use agent_it.Store.Skills.{
  Outcome, Outcomes, cooldown_cleared, is_after, most_common, CooldownInfo, cooldown_of,
  skill_reject_reason_prefix,
}

-- An application and a skill.
abbrev pub Pair : Type 0
Pair = String × String

instance abbrev pub pair_of_texts : Eq Pair
pair_of_texts = pair_eq string_eq string_eq

abbrev pub Times : Type 0
Times = List (Pair × ℕ)

abbrev pub Counter : Type 0
Counter = List (String × ℕ)

abbrev pub Grouped : Type 0
Grouped = List (Pair × Counter)

-- `WHERE app_name = … AND outcome = …`, without the first condition where no application is given
abbrev pub is_fetched : String → String → Outcome → Bool
is_fetched app outcome r = (is_empty_text app || str_eq r.app_name app) && str_eq r.outcome outcome

-- `app_name or r["app_name"]`, and the skill
abbrev pub key_of : String → Outcome → Pair
key_of app r = (if is_empty_text app then r.app_name else app, r.skill_name)

abbrev pub is_newer : Option ℕ → ℕ → Bool
is_newer none t = true
is_newer (some u) t = ltb u t

unfoldable pub cleared_one : String → Times → Outcome → Times
unfolding lookup insert
cleared_one app times r =
    let key = key_of app r in
    let set = insert key r.created_at times in
    if is_newer (lookup key times) r.created_at then set else times

unfoldable pub cleared_times : String → Times → Outcomes → Times
unfolding cleared_one
cleared_times app times [] = times
cleared_times app times (r ∷ rows) = cleared_times app (cleared_one app times r) rows

-- `grouped.setdefault(key, Counter())[prefix] += 1`
unfoldable pub group_under : Pair → String → Grouped → Grouped
unfolding lookup insert
group_under key p grouped =
    let counts = get_or [] (lookup key grouped) in
    insert key (insert p (get_or 0 (lookup p counts) + 1) counts) grouped

unfoldable pub group_one : String → Times → Grouped → Outcome → Grouped
unfolding lookup insert group_under skill_reject_reason_prefix
group_one app times grouped r =
    let key = key_of app r in
    let p = skill_reject_reason_prefix r.reason in
    let more = group_under key p grouped in
    if not (is_after (lookup key times) r.created_at)
    then grouped
    else if is_empty_text p
    then grouped
    else more

unfoldable pub grouped_rejects : String → Times → Grouped → Outcomes → Grouped
unfolding group_one
grouped_rejects app times grouped [] = grouped
grouped_rejects app times grouped (r ∷ rows) =
    grouped_rejects app times (group_one app times grouped r) rows

abbrev pub with_info : Option CooldownInfo → List CooldownInfo → List CooldownInfo
with_info none rest = rest
with_info (some info) rest = info ∷ rest

abbrev pub info_of : ℕ → Pair → Counter → Option CooldownInfo
info_of threshold (app, skill) counts = cooldown_of app skill threshold (most_common counts)

unfoldable pub cooled : ℕ → Grouped → List CooldownInfo
cooled threshold [] = []
cooled threshold ((key, counts) ∷ grouped) =
    with_info (info_of threshold key counts) (cooled threshold grouped)

-- `(-x["count"], x["skill_name"], x["app_name"])`: the first is at most the second.
abbrev pub is_listed_first : CooldownInfo → CooldownInfo → Bool
is_listed_first a b =
    ltb b.count a.count
    || (not (ltb a.count b.count)
        && (not (is_le (compare b.skill_name a.skill_name))
            || (str_eq a.skill_name b.skill_name && is_le (compare a.app_name b.app_name))))

-- An empty text for `app` stands for every application. The statements have no ORDER BY; the rows come
-- in the order of their creation.
unfoldable pub list_cooled_skills : String → ℕ → Outcomes → List CooldownInfo
unfolding cleared_times grouped_rejects cooled sort_with
list_cooled_skills app threshold rows =
    let times = cleared_times app [] (keep_if (is_fetched app cooldown_cleared) rows) in
    sort_with is_listed_first
      (cooled threshold (grouped_rejects app times [] (keep_if (is_fetched app "rejected") rows)))
