-- ===== src/Store/Skills/Clearing.antt =====
-- What clearing a cool-down does.
use agent_it.Base.{
  ℕ, ◌≤◌, String, Bool, true, false, ◌&&◌, Option, none, some, List, [], ◌∷◌, ◌++◌, ◌≡◌, inl, inr,
  refl, ◌∙◌, arith, keep_if, keep_if-dropped, if◌then◌else◌, str_eq, eq_refl, is_empty_text, strip,
  Bool-cases, All,
}
use agent_it.Store.Skills.{
  Outcome, Outcomes, is_row, last_cleared, later, is_after, counted_rejects, count_from,
  get_skill_cooldown, clear_skill_cooldown, clearing, clearing_row, or_unknown, cooldown_cleared,
  skill_cooldown_same_reason, Cleared,
}

module _ {A : Type 0} (p : A → Bool) where
  keep_if-none : (xs : List A) → All (λ (x : A). p x ≡ false) xs → keep_if p xs ≡ []
  keep_if-none [] h = refl
  keep_if-none (x ∷ xs) (h, hs) = rw (h, keep_if-none xs hs) refl

last_cleared-append :
    (app skill : String) (since : Option ℕ) (r : Outcome) (rows : Outcomes)
    → last_cleared app skill since (rows ++ r ∷ []) ≡ (
        if is_row app skill cooldown_cleared r
        then later (last_cleared app skill since rows) r.created_at
        else last_cleared app skill since rows)
last_cleared-append app skill since r [] = refl
last_cleared-append app skill since r (q ∷ rows) =
    elim (Bool-cases (is_row app skill cooldown_cleared q)) [
      | inl hit ↦ rw hit (last_cleared-append app skill (later since q.created_at) r rows)
      | inr miss ↦ rw miss (last_cleared-append app skill since r rows)
    ]

-- A row that is neither a reject nor a clearing row of the pair changes nothing for it.
counted_rejects-other :
    (app skill : String) (r : Outcome) (rows : Outcomes)
    → is_row app skill cooldown_cleared r ≡ false
    → is_row app skill "rejected" r ≡ false
    → counted_rejects app skill (rows ++ r ∷ []) ≡ counted_rejects app skill rows
unfolding counted_rejects
counted_rejects-other app skill r rows h g =
    rw (last_cleared-append app skill none r rows, h) (keep_if-dropped _ r rows (rw g refl))

not_after : (o : Option ℕ) (t now : ℕ) → t ≤ now → is_after (later o now) t ≡ false
not_after none t now h = ground arith
not_after (some u) t now h = ground arith

none_after :
    (app skill : String) (o : Option ℕ) (now : ℕ) (rows : Outcomes)
    → All (λ (r : Outcome). r.created_at ≤ now) rows
    → All
        (λ (r : Outcome).
          (is_row app skill "rejected" r && is_after (later o now) r.created_at) ≡ false)
        rows
none_after app skill o now [] h = tt
none_after app skill o now (r ∷ rows) (h, hs) = (
  rw (not_after o r.created_at now h) (and_false (is_row app skill "rejected" r)),
  none_after app skill o now rows hs,
)
  where
    and_false : (b : Bool) → (b && false) ≡ false
    and_false b = ground arith

-- After a clearing row that is no older than the rows before it, no reject of the pair counts.
counted_rejects-cleared :
    (app skill : String) (r : Outcome) (rows : Outcomes)
    → is_row app skill cooldown_cleared r ≡ true
    → is_row app skill "rejected" r ≡ false
    → All (λ (q : Outcome). q.created_at ≤ r.created_at) rows
    → counted_rejects app skill (rows ++ r ∷ []) ≡ []
unfolding counted_rejects
counted_rejects-cleared app skill r rows h g past =
    rw (last_cleared-append app skill none r rows, h)
      (keep_if-dropped _ r rows (rw g refl)
        ∙ keep_if-none _ rows
            (none_after app skill (last_cleared app skill none rows) r.created_at rows past))

-- What `clear_skill_cooldown` did: the pair no longer cools down, every other pair is as before,
-- and the answer tells the cool-down before.
pub record IsReset (app skill reason actor : String) (now threshold : ℕ) (rows : Outcomes)
    : Type 0 where
  pub cleared : Cleared
  pub rows' : Outcomes
  pub returned : clear_skill_cooldown app skill reason actor now rows ≡ some (cleared, rows')
  pub active : get_skill_cooldown app skill threshold rows' ≡ none
  pub others :
      (a s : String)
      → (str_eq app a && str_eq skill s) ≡ false
      → get_skill_cooldown a s threshold rows' ≡ get_skill_cooldown a s threshold rows
  pub told : cleared.info_before ≡ get_skill_cooldown app skill skill_cooldown_same_reason rows

same_row :
    (app skill outcome : String)
    → (str_eq app app && str_eq skill skill && str_eq outcome outcome) ≡ true
same_row app skill outcome = rw (eq_refl app, eq_refl skill, eq_refl outcome) refl

other_row : (b c d : Bool) → (b && c) ≡ false → (b && c && d) ≡ false
other_row b c d h = ground arith

-- With a reason that is not blank, and no row later than now, clearing a cool-down ends it whatever
-- the threshold, leaves every other pair of an app and a skill as it was, and returns the cool-down
-- that it ended.
pub clear_skill_cooldown-IsReset :
    (app skill reason actor : String) (now threshold : ℕ) (rows : Outcomes)
    → is_empty_text (strip reason) ≡ false
    → All (λ (r : Outcome). r.created_at ≤ now) rows
    → IsReset app skill reason actor now threshold rows
unfolding clear_skill_cooldown get_skill_cooldown count_from
clear_skill_cooldown-IsReset app skill reason actor now threshold rows given past =
    let row = clearing_row app skill (strip reason) (or_unknown (strip actor)) now in
    record {
      cleared = (clearing app skill (strip reason) (or_unknown (strip actor)) now rows).0;
      rows' = rows ++ row ∷ [];
      returned = rw given refl;
      active =
          rw
            (counted_rejects-cleared app skill row rows (same_row app skill cooldown_cleared)
              (not_rejected (str_eq app app) (str_eq skill skill)) past)
            refl;
      others = λ a s other.
          rw
            (counted_rejects-other a s row rows
              (other_row (str_eq app a) (str_eq skill s) true other)
              (other_row (str_eq app a) (str_eq skill s) false other))
            refl;
      told = refl;
    }
  where
    not_rejected : (b c : Bool) → (b && c && false) ≡ false
    not_rejected b c = ground arith
