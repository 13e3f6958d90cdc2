-- ===== src/Store/Skills/Listing/Times.antt =====
-- When the listing of the skills that cool down takes a pair for cleared.
use agent_it.Base.{
  ℕ, String, Bool, true, false, ◌||◌, Option, none, some, [], ◌∷◌, ◌≡◌, ◌⊎◌, inl, inr, refl, sym,
  ap, ◌∙◌, arith, keep_if, if◌then◌else◌, lookup, insert, string_eq, str_eq, eq_iff, is_empty_text,
  lookup-insert, Bool-cases,
}
use agent_it.Store.Skills.{Outcome, Outcomes, cooldown_cleared, is_row, later, last_cleared}
use agent_it.Store.Skills.Listing.{
  Pair, pair_of_texts, Times, is_fetched, key_of, is_newer, cleared_one, cleared_times,
}

-- The applications that a listing is about.
abbrev pub covers : String → String → Bool
covers app a = is_empty_text app || str_eq a app

pub key_of-fetched :
    (app a s outcome : String) (r : Outcome)
    → covers app a ≡ true
    → is_fetched app outcome r ≡ true
    → pair_of_texts.beq (key_of app r) (a, s) ≡ is_row a s outcome r
key_of-fetched app a s outcome r h f =
    ground (arith, eq_iff a app, eq_iff r.app_name app, eq_iff r.app_name a, eq_iff app a)

pub is_row-unfetched :
    (app a s outcome : String) (r : Outcome)
    → covers app a ≡ true
    → is_fetched app outcome r ≡ false
    → is_row a s outcome r ≡ false
is_row-unfetched app a s outcome r h f =
    ground (arith, eq_iff a app, eq_iff r.app_name app, eq_iff r.app_name a)

later-newest : (o : Option ℕ) (t : ℕ) → is_newer o t ≡ true → later o t ≡ some t
later-newest none t h = refl
later-newest (some u) t h = ground arith

later-older : (o : Option ℕ) (t : ℕ) → is_newer o t ≡ false → later o t ≡ o
later-older none t h = cc
later-older (some u) t h = ground arith

-- What a dictionary of times answers once a time is set where it is newer.
lookup-newer :
    (j k : Pair) (t : ℕ) (times : Times)
    → lookup k (if is_newer (lookup j times) t then insert j t times else times)
      ≡ (if pair_of_texts.beq j k then later (lookup k times) t else lookup k times)
lookup-newer j k t times = elim (Bool-cases (is_newer (lookup j times) t)) [
  | inl n ↦ rw (n, lookup-insert j k t times) (newest n (Bool-cases (pair_of_texts.beq j k)))
  | inr n ↦ rw n (older n (Bool-cases (pair_of_texts.beq j k)))
]
  where
    at_k : pair_of_texts.beq j k ≡ true → lookup j times ≡ lookup k times
    at_k e = ap (λ (i : Pair). lookup i times) ((pair_of_texts.beq_iff j k).0 e)

    newest :
        is_newer (lookup j times) t ≡ true
        → (pair_of_texts.beq j k ≡ true) ⊎ (pair_of_texts.beq j k ≡ false)
        → (if pair_of_texts.beq j k then some t else lookup k times)
          ≡ (if pair_of_texts.beq j k then later (lookup k times) t else lookup k times)
    newest n (inl e) = rw e (sym (later-newest (lookup k times) t (rw (sym (at_k e)) n)))
    newest n (inr e) = rw e refl

    older :
        is_newer (lookup j times) t ≡ false
        → (pair_of_texts.beq j k ≡ true) ⊎ (pair_of_texts.beq j k ≡ false)
        → lookup k times
          ≡ (if pair_of_texts.beq j k then later (lookup k times) t else lookup k times)
    older n (inl e) = rw e (sym (later-older (lookup k times) t (rw (sym (at_k e)) n)))
    older n (inr e) = rw e refl

-- The time of the last clearing of a pair that the listing covers.
lookup-cleared_one :
    (app a s : String) (times : Times) (r : Outcome)
    → covers app a ≡ true
    → is_fetched app cooldown_cleared r ≡ true
    → lookup (a, s) (cleared_one app times r) ≡ (
        if is_row a s cooldown_cleared r
        then later (lookup (a, s) times) r.created_at
        else lookup (a, s) times)
unfolding cleared_one lookup
lookup-cleared_one app a s times r h f =
    rw (sym (key_of-fetched app a s cooldown_cleared r h f))
      (lookup-newer (key_of app r) (a, s) r.created_at times)

pub lookup-cleared_times :
    (app a s : String) (times : Times) (rows : Outcomes)
    → covers app a ≡ true
    → lookup (a, s) (cleared_times app times (keep_if (is_fetched app cooldown_cleared) rows))
      ≡ last_cleared a s (lookup (a, s) times) rows
unfolding cleared_times
lookup-cleared_times app a s times [] h = refl
lookup-cleared_times app a s times (r ∷ rows) h =
    elim (Bool-cases (is_fetched app cooldown_cleared r)) [
      | inl f ↦ rw f (
          lookup-cleared_times app a s (cleared_one app times r) rows h
          ∙ ap (λ (o : Option ℕ). last_cleared a s o rows) (lookup-cleared_one app a s times r h f)
          ∙ last_cleared-if (is_row a s cooldown_cleared r))
      | inr f ↦
          rw (f, is_row-unfetched app a s cooldown_cleared r h f)
            (lookup-cleared_times app a s times rows h)
    ]
  where
    o : Option ℕ
    o = lookup (a, s) times

    last_cleared-if :
        (b : Bool)
        → last_cleared a s (if b then later o r.created_at else o) rows
          ≡ (if b then last_cleared a s (later o r.created_at) rows else last_cleared a s o rows)
    last_cleared-if true = refl
    last_cleared-if false = refl
