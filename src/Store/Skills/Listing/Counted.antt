-- ===== src/Store/Skills/Listing/Counted.antt =====
-- What the listing of the skills that cool down counts for one application and skill.
use agent_it.Base.{
  ℕ, ◌+◌, String, Bool, true, false, ◌&&◌, not, Option, some, List, [], ◌∷◌, ◌≡◌, ◌⊎◌, inl, inr,
  refl, ap, ◌∙◌, keep_if, if◌then◌else◌, lookup, insert, get_or, string_eq, is_empty_text,
  lookup-insert, Bool-cases,
}
use agent_it.Store.Skills.{
  Outcome, Outcomes, is_after, is_row, skill_reject_reason_prefix, count_from, prefixes_of,
}
use agent_it.Store.Skills.Listing.{
  Pair, pair_of_texts, Times, Counter, Grouped, is_fetched, key_of, group_under, group_one,
  grouped_rejects,
}
use agent_it.Store.Skills.Listing.Times.{covers, key_of-fetched, is_row-unfetched}

-- The counter of a pair, empty where the dictionary has none.
abbrev pub counter : Pair → Grouped → Counter
counter k grouped = get_or [] (lookup k grouped)

abbrev counted_one : String → Counter → Counter
counted_one p counts = insert p (get_or 0 (lookup p counts) + 1) counts

counter-insert :
    (j k : Pair) (c : Counter) (g : Grouped)
    → counter k (insert j c g) ≡ (if pair_of_texts.beq j k then c else counter k g)
counter-insert j k c g = rw (lookup-insert j k c g) (get_or_if (pair_of_texts.beq j k))
  where
    get_or_if :
        (b : Bool) → get_or [] (if b then some c else lookup k g) ≡ (if b then c else counter k g)
    get_or_if true = refl
    get_or_if false = refl

-- Counting a reject of one pair changes the counter of this pair alone.
counter-group_under :
    (j k : Pair) (p : String) (g : Grouped)
    → counter k (group_under j p g)
      ≡ (if pair_of_texts.beq j k then counted_one p (counter k g) else counter k g)
unfolding group_under lookup insert
counter-group_under j k p g = elim (Bool-cases (pair_of_texts.beq j k)) [
  | inl e ↦
      counter-insert j k (counted_one p (counter j g)) g
      ∙ rw e (ap (λ (i : Pair). counted_one p (counter i g)) ((pair_of_texts.beq_iff j k).0 e))
  | inr e ↦ counter-insert j k (counted_one p (counter j g)) g ∙ rw e refl
]

-- A reject of the pair that counts, by the time of its last clearing.
abbrev pub counts_for : String → String → Option ℕ → Outcome → Bool
counts_for a s since r = is_row a s "rejected" r && is_after since r.created_at

abbrev counted_prefix : Counter → Outcome → Counter
counted_prefix counts r =
    if is_empty_text (skill_reject_reason_prefix r.reason)
    then counts
    else counted_one (skill_reject_reason_prefix r.reason) counts

counter-step :
    (j k : Pair) (late blank : Bool) (p : String) (g : Grouped)
    → counter k (if not late then g else if blank then g else group_under j p g) ≡ (
        if pair_of_texts.beq j k && late
        then (if blank then counter k g else counted_one p (counter k g))
        else counter k g)
counter-step j k late blank p g = elim (Bool-cases (pair_of_texts.beq j k)) [
  | inl e ↦ rw e (same_pair late blank e)
  | inr e ↦ rw e (other_pair late blank e)
]
  where
    same_pair :
        (late blank : Bool)
        → pair_of_texts.beq j k ≡ true
        → counter k (if not late then g else if blank then g else group_under j p g) ≡ (
            if late
            then (if blank then counter k g else counted_one p (counter k g))
            else counter k g)
    same_pair false blank e = refl
    same_pair true true e = refl
    same_pair true false e = counter-group_under j k p g ∙ rw e refl

    other_pair :
        (late blank : Bool)
        → pair_of_texts.beq j k ≡ false
        → counter k (if not late then g else if blank then g else group_under j p g) ≡ counter k g
    other_pair false blank e = refl
    other_pair true true e = refl
    other_pair true false e = counter-group_under j k p g ∙ rw e refl

-- A reject of the pair, by its key and by the time of the last clearing of the pair.
counter-group_one :
    (app : String) (k : Pair) (times : Times) (g : Grouped) (r : Outcome)
    → counter k (group_one app times g r) ≡ (
        if pair_of_texts.beq (key_of app r) k && is_after (lookup k times) r.created_at
        then counted_prefix (counter k g) r
        else counter k g)
unfolding group_one lookup group_under
counter-group_one app k times g r =
    counter-step (key_of app r) k (is_after (lookup (key_of app r) times) r.created_at)
      (is_empty_text (skill_reject_reason_prefix r.reason)) (skill_reject_reason_prefix r.reason) g
    ∙ same_time (Bool-cases (pair_of_texts.beq (key_of app r) k))
  where
    same_time :
        (pair_of_texts.beq (key_of app r) k ≡ true) ⊎ (pair_of_texts.beq (key_of app r) k ≡ false)
        → (if pair_of_texts.beq (key_of app r) k
              && is_after (lookup (key_of app r) times) r.created_at
            then counted_prefix (counter k g) r
            else counter k g)
          ≡ (if pair_of_texts.beq (key_of app r) k && is_after (lookup k times) r.created_at
              then counted_prefix (counter k g) r
              else counter k g)
    same_time (inl e) =
        ap
          (λ (i : Pair).
            if pair_of_texts.beq (key_of app r) k && is_after (lookup i times) r.created_at
            then counted_prefix (counter k g) r
            else counter k g)
          ((pair_of_texts.beq_iff (key_of app r) k).0 e)
    same_time (inr e) = rw e refl

-- The rejects that the listing counts for a pair, counted one after the other.
pub counter-grouped_rejects :
    (app a s : String) (times : Times) (g : Grouped) (rows : Outcomes)
    → covers app a ≡ true
    → counter (a, s) (grouped_rejects app times g (keep_if (is_fetched app "rejected") rows))
      ≡ count_from
          (counter (a, s) g)
          (prefixes_of (keep_if (counts_for a s (lookup (a, s) times)) rows))
unfolding grouped_rejects count_from
counter-grouped_rejects app a s times g [] h = refl
counter-grouped_rejects app a s times g (r ∷ rows) h =
    elim (Bool-cases (is_fetched app "rejected" r)) [
      | inl f ↦ rw f (
          counter-grouped_rejects app a s times (group_one app times g r) rows h
          ∙ ap (λ (c : Counter). count_from c rest)
              (counter-group_one app (a, s) times g r
                ∙ rw (key_of-fetched app a s "rejected" r h f) refl)
          ∙ counted (Bool-cases (counts_for a s since r)))
      | inr f ↦
          rw (f, is_row-unfetched app a s "rejected" r h f)
            (counter-grouped_rejects app a s times g rows h)
    ]
  where
    since : Option ℕ
    since = lookup (a, s) times

    rest : List String
    rest = prefixes_of (keep_if (counts_for a s since) rows)

    blank_or :
        (b : Bool) (x y : Counter)
        → count_from (if b then x else y) rest
          ≡ (if b then count_from x rest else count_from y rest)
    blank_or true x y = refl
    blank_or false x y = refl

    counted :
        (counts_for a s since r ≡ true) ⊎ (counts_for a s since r ≡ false)
        → count_from
            (if counts_for a s since r
              then counted_prefix (counter (a, s) g) r
              else counter (a, s) g)
            rest
          ≡ count_from (counter (a, s) g) (prefixes_of (keep_if (counts_for a s since) (r ∷ rows)))
    counted (inl e) = rw e (blank_or (is_empty_text (skill_reject_reason_prefix r.reason)) _ _)
    counted (inr e) = rw e refl
