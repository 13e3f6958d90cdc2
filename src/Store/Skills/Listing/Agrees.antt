-- ===== src/Store/Skills/Listing/Agrees.antt =====
-- The listing of the skills that cool down against the answer for one of them.
use agent_it.Base.{
  ℕ, String, true, Option, none, some, [], ◌≡◌, ◌↔◌, refl, sym, ap, ◌∙◌, keep_if, lookup, get_or,
  string_eq, In, All-In, In-lookup, lookup-In, In-sort_with, In-of_sort_with,
}
use agent_it.Store.Skills.{
  Outcomes, cooldown_cleared, CooldownInfo, count_from, counted_rejects, prefixes_of,
  get_skill_cooldown,
}
use agent_it.Store.Skills.Listing.{
  Pair, pair_of_texts, Times, Counter, Grouped, is_fetched, cleared_times, grouped_rejects, info_of,
  cooled, is_listed_first, list_cooled_skills,
}
use agent_it.Store.Skills.Listing.Times.{covers, lookup-cleared_times}
use agent_it.Store.Skills.Listing.Counted.{counter, counts_for, counter-grouped_rejects}
use agent_it.Store.Skills.Listing.Entries.{
  IsCovered, grouped_rejects-IsDict, grouped_rejects-IsCovered, info_of-pair, In-of_cooled,
  In-cooled,
}

abbrev clearings_of : String → Outcomes → Times
unfolding cleared_times
clearings_of app rows = cleared_times app [] (keep_if (is_fetched app cooldown_cleared) rows)

abbrev rejects_of : String → Outcomes → Grouped
unfolding cleared_times grouped_rejects
rejects_of app rows =
    grouped_rejects app (clearings_of app rows) [] (keep_if (is_fetched app "rejected") rows)

-- The listing's own answer for a pair that it covers is that of `get_skill_cooldown`.
get_skill_cooldown-counter :
    (app a s : String) (threshold : ℕ) (rows : Outcomes)
    → covers app a ≡ true
    → get_skill_cooldown a s threshold rows
      ≡ info_of threshold (a, s) (counter (a, s) (rejects_of app rows))
unfolding get_skill_cooldown counted_rejects rejects_of clearings_of lookup
get_skill_cooldown-counter app a s threshold rows h =
    ap (λ (c : Counter). info_of threshold (a, s) c)
      (sym (
        counter-grouped_rejects app a s (clearings_of app rows) [] rows h
        ∙ ap (λ (o : Option ℕ). count_from [] (prefixes_of (keep_if (counts_for a s o) rows)))
            (lookup-cleared_times app a s [] rows h)))

-- `list_cooled_skills` lists exactly what `get_skill_cooldown` answers: an entry is listed, with its
-- reason and its count, if and only if its application is covered (it is the given one, or none is
-- given) and `get_skill_cooldown` returns that entry for its application and skill.
pub list_cooled_skills-get_skill_cooldown :
    (app : String) (threshold : ℕ) (rows : Outcomes) (info : CooldownInfo)
    → In info (list_cooled_skills app threshold rows) ↔ (
        (covers app info.app_name ≡ true)
        × (get_skill_cooldown info.app_name info.skill_name threshold rows ≡ some info))
unfolding list_cooled_skills rejects_of clearings_of
list_cooled_skills-get_skill_cooldown app threshold rows info = (listed, returned)
  where
    IsTold : Type 0
    IsTold =
        (covers app info.app_name ≡ true)
        × (get_skill_cooldown info.app_name info.skill_name threshold rows ≡ some info)

    fetched : Outcomes
    fetched = keep_if (is_fetched app "rejected") rows

    of_entry :
        (a s : String) (c : Counter)
        → In ((a, s), c) (rejects_of app rows)
        → info_of threshold (a, s) c ≡ some info
        → IsTold
    of_entry a s c m e =
        let covered : covers app a ≡ true =
          All-In (IsCovered app) ((a, s), c) (rejects_of app rows)
            (grouped_rejects-IsCovered app (clearings_of app rows) [] fetched tt) m in
        let answer : get_skill_cooldown a s threshold rows ≡ some info =
          get_skill_cooldown-counter app a s threshold rows covered
          ∙ ap (λ (o : Option Counter). info_of threshold (a, s) (get_or [] o))
              (In-lookup (a, s) c (rejects_of app rows)
                (grouped_rejects-IsDict app (clearings_of app rows) [] fetched tt) m)
          ∙ e in
        let pair : (a ≡ info.app_name) × (s ≡ info.skill_name) =
          info_of-pair threshold a s c info e in
        (
          ap (λ (x : String). covers app x) (sym pair.0) ∙ covered,
          (λ i. get_skill_cooldown (sym pair.0 i) (sym pair.1 i) threshold rows) ∙ answer,
        )

    listed : In info (list_cooled_skills app threshold rows) → IsTold
    listed m =
        In-of_cooled threshold info (rejects_of app rows) IsTold
          (In-of_sort_with is_listed_first info (cooled threshold (rejects_of app rows)) m)
          (λ k c. of_entry k.0 k.1 c)

    returned : IsTold → In info (list_cooled_skills app threshold rows)
    returned (h, e) =
        from_lookup (lookup k (rejects_of app rows)) refl
          (sym (get_skill_cooldown-counter app info.app_name info.skill_name threshold rows h) ∙ e)
      where
        k : Pair
        k = (info.app_name, info.skill_name)

        from_lookup :
            (o : Option Counter)
            → lookup k (rejects_of app rows) ≡ o
            → info_of threshold k (counter k (rejects_of app rows)) ≡ some info
            → In info (list_cooled_skills app threshold rows)
        from_lookup none absent told = absurd (
            cc (
              sym (
                ap (λ (x : Option Counter). info_of threshold k (get_or [] x)) (sym absent)
                ∙ told)))
        from_lookup (some c) found told =
            In-sort_with is_listed_first info (cooled threshold (rejects_of app rows)) (
              In-cooled threshold info k c (rejects_of app rows)
                (lookup-In k c (rejects_of app rows) found)
                (ap (λ (x : Option Counter). info_of threshold k (get_or [] x)) (sym found) ∙ told))
