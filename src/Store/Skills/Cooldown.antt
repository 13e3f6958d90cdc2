-- ===== src/Store/Skills/Cooldown.antt =====
-- When a skill cools down, and what clearing the cool-down does.
use agent_it.Base.{
  ℕ, ◌+◌, ◌≤◌, String, Bool, true, false, Option, none, some, List, [], ◌∷◌, ◌≡◌, ◌↔◌, ◌⊎◌, inl,
  inr, refl, sym, ap, ◌∙◌, arith, map, count_if, ltb, if◌then◌else◌, lookup, insert, get_or,
  is_some, string_eq, str_eq, eq_iff, is_empty_text, In, IsDict, In-lookup, lookup-insert,
  insert-IsDict, Bool-cases,
}
use agent_it.Store.Skills.{
  Outcome, Outcomes, counted_rejects, count_from, better, most_common, cooldown_of, prefixes_of,
  get_skill_cooldown, is_skill_cooling_down, skill_reject_reason_prefix,
}

-- How often a prefix is counted.
abbrev counted : String → List (String × ℕ) → ℕ
counted p counts = get_or 0 (lookup p counts)

get_or_if :
    (b : Bool) (n : ℕ) (o : Option ℕ)
    → get_or 0 (if b then some n else o) ≡ (if b then n else get_or 0 o)
get_or_if true n o = refl
get_or_if false n o = refl

counted-count_from :
    (p : String) (counts : List (String × ℕ)) (prefixes : List String)
    → is_empty_text p ≡ false
    → counted p (count_from counts prefixes)
      ≡ counted p counts + count_if (λ (q : String). str_eq q p) prefixes
unfolding count_from
counted-count_from p counts [] h = omega arith
counted-count_from p counts (q ∷ prefixes) h = elim (Bool-cases (is_empty_text q)) [
  | inl empty ↦ rw (empty, counted-count_from p counts prefixes h) (other_prefix q empty)
  | inr named ↦
      rw
        (
          named,
          counted-count_from p (insert q (counted q counts + 1) counts) prefixes h,
          lookup-insert q p (counted q counts + 1) counts,
          get_or_if (str_eq q p) (counted q counts + 1) (lookup p counts),
        )
        (one_more q (Bool-cases (str_eq q p)))
]
  where
    n : ℕ
    n = count_if (λ (r : String). str_eq r p) prefixes

    other_prefix :
        (q : String)
        → is_empty_text q ≡ true
        → counted p counts + n
          ≡ counted p counts + count_if (λ (r : String). str_eq r p) (q ∷ prefixes)
    other_prefix q e = elim (Bool-cases (str_eq q p)) [
      | inl same ↦ absurd (cc (sym e ∙ (ap is_empty_text ((eq_iff q p).0 same) ∙ h)))
      | inr differ ↦ rw differ refl
    ]

    one_more :
        (q : String)
        → (str_eq q p ≡ true) ⊎ (str_eq q p ≡ false)
        → (if str_eq q p then counted q counts + 1 else counted p counts) + n
          ≡ counted p counts + count_if (λ (r : String). str_eq r p) (q ∷ prefixes)
    one_more q (inl same) =
        rw same (omega (arith, ap (λ (r : String). counted r counts) ((eq_iff q p).0 same)))
    one_more q (inr differ) = rw differ refl

count_from-IsDict :
    (counts : List (String × ℕ)) (prefixes : List String)
    → IsDict counts
    → IsDict (count_from counts prefixes)
unfolding count_from
count_from-IsDict counts [] h = h
count_from-IsDict counts (q ∷ prefixes) h = elim (Bool-cases (is_empty_text q)) [
  | inl empty ↦ rw empty (count_from-IsDict counts prefixes h)
  | inr named ↦ rw named (
      count_from-IsDict (insert q (counted q counts + 1) counts) prefixes
        (insert-IsDict q (counted q counts + 1) counts h))
]

-- The greatest count, 0 where nothing is counted.
abbrev top_count : Option (String × ℕ) → ℕ
top_count none = 0
top_count (some e) = e.1

counted-le-top :
    (p : String) (counts : List (String × ℕ)) → counted p counts ≤ top_count (most_common counts)
unfolding lookup
counted-le-top p [] = omega arith
counted-le-top p ((q, n) ∷ counts) = at_top (most_common counts) (counted-le-top p counts)
  where
    at_top :
        (o : Option (String × ℕ))
        → counted p counts ≤ top_count o
        → get_or 0 (if str_eq q p then some n else lookup p counts) ≤ top_count (better (q, n) o)
    at_top none h = ground arith
    at_top (some f) h = ground arith

better-In :
    (e f : String × ℕ) (counts : List (String × ℕ)) (o : Option (String × ℕ))
    → (o ≡ some e → In e counts)
    → better f o ≡ some e
    → In e (f ∷ counts)
better-In e f counts none rec h = inl (some_inj f e h)
  where
    some_inj : (a b : String × ℕ) → some a ≡ some b → b ≡ a
    some_inj a b same = cc
better-In e f counts (some d) rec h = elim (Bool-cases (ltb f.1 d.1)) [
  | inl less ↦ inr (rec (rw less at h))
  | inr least ↦ inl (some_inj f e (rw least at h))
]
  where
    some_inj : (a b : String × ℕ) → some a ≡ some b → b ≡ a
    some_inj a b same = cc

most_common-In :
    (e : String × ℕ) (counts : List (String × ℕ)) → most_common counts ≡ some e → In e counts
most_common-In e [] h = absurd (cc)
most_common-In e (f ∷ counts) h =
    better-In e f counts (most_common counts) (most_common-In e counts) h

-- No count stands under the empty prefix.
counted_empty :
    (p : String) (counts : List (String × ℕ)) (prefixes : List String)
    → is_empty_text p ≡ true
    → counted p (count_from counts prefixes) ≡ counted p counts
unfolding count_from
counted_empty p counts [] h = refl
counted_empty p counts (q ∷ prefixes) h = elim (Bool-cases (is_empty_text q)) [
  | inl empty ↦ rw empty (counted_empty p counts prefixes h)
  | inr named ↦
      rw
        (
          named,
          counted_empty p (insert q (counted q counts + 1) counts) prefixes h,
          lookup-insert q p (counted q counts + 1) counts,
          differ q named,
        )
        refl
]
  where
    differ : (q : String) → is_empty_text q ≡ false → str_eq q p ≡ false
    differ q named = elim (Bool-cases (str_eq q p)) [
      | inl same ↦ absurd (cc (sym h ∙ (ap is_empty_text (sym ((eq_iff q p).0 same)) ∙ named)))
      | inr other ↦ other
    ]

count_if-map :
    {A B : Type 0} (f : A → B) (p : B → Bool) (xs : List A)
    → count_if p (map f xs) ≡ count_if (λ (x : A). p (f x)) xs
count_if-map f p [] = refl
count_if-map f p (x ∷ xs) = ground (arith, count_if-map f p xs)

-- The counted rejects of a pair whose reason has the prefix `p`.
abbrev pub rejects_with : String → String → String → Outcomes → ℕ
rejects_with p app skill rows =
    count_if (λ (r : Outcome). str_eq (skill_reject_reason_prefix r.reason) p)
      (counted_rejects app skill rows)

abbrev pub IsRepeated : ℕ → String → String → Outcomes → Type 0
IsRepeated threshold app skill rows =
    (p : String) × (is_empty_text p ≡ false) × (threshold ≤ rejects_with p app skill rows)

abbrev counts_of : String → String → Outcomes → List (String × ℕ)
counts_of app skill rows = count_from [] (prefixes_of (counted_rejects app skill rows))

counted-counts_of :
    (p app skill : String) (rows : Outcomes)
    → is_empty_text p ≡ false
    → counted p (counts_of app skill rows) ≡ rejects_with p app skill rows
unfolding lookup
counted-counts_of p app skill rows h =
    counted-count_from p [] (prefixes_of (counted_rejects app skill rows)) h
    ∙ (zero_add _
        ∙ count_if-map (λ (r : Outcome). skill_reject_reason_prefix r.reason)
            (λ (q : String). str_eq q p) (counted_rejects app skill rows))
  where
    zero_add : (n : ℕ) → 0 + n ≡ n
    zero_add n = omega arith

counts_of-empty :
    (p app skill : String) (rows : Outcomes)
    → is_empty_text p ≡ true
    → counted p (counts_of app skill rows) ≡ 0
unfolding lookup
counts_of-empty p app skill rows h =
    counted_empty p [] (prefixes_of (counted_rejects app skill rows)) h

top-IsRepeated :
    (app skill : String) (threshold : ℕ) (rows : Outcomes) (o : Option (String × ℕ))
    → 1 ≤ threshold
    → most_common (counts_of app skill rows) ≡ o
    → is_some (cooldown_of app skill threshold o) ≡ true
    → IsRepeated threshold app skill rows
top-IsRepeated app skill threshold rows none h top g = absurd (cc)
top-IsRepeated app skill threshold rows (some (p, m)) h top g =
    by_name (Bool-cases (is_empty_text p))
  where
    at_least : threshold ≤ m
    at_least = ground arith

    stored : counted p (counts_of app skill rows) ≡ m
    stored = ap (get_or 0) (
        In-lookup p m (counts_of app skill rows)
          (count_from-IsDict [] (prefixes_of (counted_rejects app skill rows)) tt)
          (most_common-In (p, m) (counts_of app skill rows) top))

    by_name :
        (is_empty_text p ≡ true) ⊎ (is_empty_text p ≡ false) → IsRepeated threshold app skill rows
    by_name (inl empty) =
        absurd (omega (arith, stored, counts_of-empty p app skill rows empty, at_least, h))
    by_name (inr named) =
        (p, named, omega (arith, stored, counted-counts_of p app skill rows named, at_least))

repeated-top :
    (app skill : String) (threshold : ℕ) (rows : Outcomes) (o : Option (String × ℕ))
    → 1 ≤ threshold
    → most_common (counts_of app skill rows) ≡ o
    → IsRepeated threshold app skill rows
    → is_some (cooldown_of app skill threshold o) ≡ true
repeated-top app skill threshold rows o h top (p, named, enough) = at_top o (
    rw top at (
      rw (counted-counts_of p app skill rows named) at
        (counted-le-top p (counts_of app skill rows))))
  where
    at_top :
        (o : Option (String × ℕ))
        → rejects_with p app skill rows ≤ top_count o
        → is_some (cooldown_of app skill threshold o) ≡ true
    at_top none le = absurd (omega (arith, h, enough, le))
    at_top (some (q, m)) le = ground (arith, h, enough, le)

-- A pair cools down exactly where some prefix that is not empty repeats: at least `threshold` of
-- its rejects after the last clearing row have it. The threshold is at least 1.
pub is_skill_cooling_down-IsRepeated :
    (app skill : String) (threshold : ℕ) (rows : Outcomes)
    → 1 ≤ threshold
    → (is_skill_cooling_down app skill threshold rows ≡ true) ↔ IsRepeated threshold app skill rows
unfolding is_skill_cooling_down get_skill_cooldown
is_skill_cooling_down-IsRepeated app skill threshold rows h = (
  top-IsRepeated app skill threshold rows (most_common (counts_of app skill rows)) h refl,
  repeated-top app skill threshold rows (most_common (counts_of app skill rows)) h refl,
)
