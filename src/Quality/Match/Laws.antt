-- ===== src/Quality/Match/Laws.antt =====
-- What a match of a generated file with a finding means.
use agent_it.Base.{
  String, Bool, true, false, ◌&&◌, ◌||◌, not, Option, none, some, List, [], ◌∷◌, ◌≡◌, refl, ◌⊎◌,
  inl, inr, arith, In, In-keep_if, In-of_keep_if, any, keep_if, first_that, first_that-In,
  first_some-In, is_empty, is_empty_text, Bool-cases, if◌then◌else◌,
}
use agent_it.Registry.Table.{fix_registry}
use agent_it.Delivery.{Entry}
use agent_it.Quality.Match.{
  file_matches_finding_categories, legacy_match, fuzzy_match, mapped_match, registry_match, bridges,
  file_signals, skill_of, is_contracted, clears, refused_by, or_match, categories_overlap,
}

or_match-some :
    (a b : Option String) (c : String)
    → or_match a b ≡ some c
    → (a ≡ some c) ⊎ ((a ≡ none) × (b ≡ some c))
or_match-some none b c h = inr (refl, h)
or_match-some (some d) b c h = inl h

if_none-some :
    (t : Bool) (o : Option String) (c : String)
    → (if t then none else o) ≡ some c
    → (t ≡ false) × (o ≡ some c)
if_none-some t o c h = ground arith

not-true : (b : Bool) → not b ≡ true → b ≡ false
not-true b h = ground arith

not-false : (b : Bool) → not b ≡ false → b ≡ true
not-false b h = ground arith

not-In_empty : (xs : List String) (a : String) → is_empty xs ≡ true → In a xs → ⊥
not-In_empty [] a h m = m
not-In_empty (x ∷ xs) a h m = cc

registry_match-In :
    (skill : String) (cats : List String) (c : String)
    → registry_match skill cats ≡ some c
    → In c cats
unfolding registry_match
registry_match-In skill cats c h = by_row (first_some-In _ fix_registry c h)
  where
    by_row :
        (r : (row : String × (String × String)) × In row fix_registry
          × ((if categories_overlap skill row.1.1 || categories_overlap skill row.0
                then first_that
                    (λ (cat : String).
                      categories_overlap cat row.0 || categories_overlap cat row.1.0)
                    cats
                else none)
              ≡ some c))
        → In c cats
    by_row (row, _, e) =
        (first_that-In _ cats c
          (if_some (categories_overlap skill row.1.1 || categories_overlap skill row.0) _ e)).0
      where
        if_some : (t : Bool) (o : Option String) → (if t then o else none) ≡ some c → o ≡ some c
        if_some t o g = ground arith

-- The branches behind a match that is not exact.
inexact_cases :
    (refused only has_skill : Bool) (bridged legacy : Option String) (c : String)
    → (if refused then none else if only then (if has_skill then none else bridged) else legacy)
      ≡ some c
    → (has_skill ≡ false) × (bridged ≡ some c) ⊎ (refused ≡ false) × (legacy ≡ some c)
inexact_cases refused only has_skill bridged legacy c h = ground arith

module _ (file : Entry) (cats : List String) (c : String) where
  fuzzy_match-In : fuzzy_match file cats ≡ some c → In c cats
  unfolding fuzzy_match
  fuzzy_match-In h =
      let r = first_some-In _ (file_signals file) c h in
      (first_that-In (λ (cat : String). categories_overlap r.0 cat) cats c r.2).0

  legacy_match-In : legacy_match file cats ≡ some c → In c cats
  unfolding legacy_match
  legacy_match-In h = elim (or_match-some (fuzzy_match file cats) _ c h) [
    | inl fuzzy ↦ fuzzy_match-In fuzzy
    | inr (_, later) ↦ elim (or_match-some (first_that (mapped_match file) cats) _ c later) [
      | inl mapped ↦ (first_that-In (mapped_match file) cats c mapped).0
      | inr (_, last) ↦
          registry_match-In (skill_of file) cats c
            (if_none-some (is_empty_text (skill_of file)) _ c last).1
    ]
  ]

-- What `file_matches_finding_categories` promises of the category that it returns: it is one of the
-- open categories; a file that names a skill is tied to a contracted finding only if the skill is
-- the registered clearing skill, and so is one whose skill a contract refuses, to any finding.
pub record IsTied (file : Entry) (cats : List String) (c : String) : Type 0 where
  pub open_finding : In c cats
  pub clearing :
      is_empty_text (skill_of file) ≡ false
      → is_contracted c ≡ true
      → clears (skill_of file) c ≡ true
  pub not_refused :
      is_empty_text (skill_of file) ≡ false
      → any (refused_by (skill_of file)) (keep_if is_contracted cats) ≡ true
      → clears (skill_of file) c ≡ true

module _ (file : Entry) (cats : List String) (c : String) where
  abbrev contracted : List String
  contracted = keep_if is_contracted cats

  abbrev uncontracted : List String
  uncontracted = keep_if (λ (d : String). not (is_contracted d)) cats

  abbrev has_skill : Bool
  has_skill = not (is_empty_text (skill_of file))

  IsTied-exact : first_that (clears (skill_of file)) contracted ≡ some c → IsTied file cats c
  IsTied-exact h =
      let r = first_that-In (clears (skill_of file)) contracted c h in
      record {
        open_finding = (In-of_keep_if is_contracted c cats r.0).0;
        clearing = λ _ _. r.1;
        not_refused = λ _ _. r.1;
      }

  IsTied-bridge :
      is_empty_text (skill_of file) ≡ true
      → first_that (bridges (file_signals file)) contracted ≡ some c
      → IsTied file cats c
  IsTied-bridge no_skill h =
      let r = first_that-In (bridges (file_signals file)) contracted c h in
      record {
        open_finding = (In-of_keep_if is_contracted c cats r.0).0;
        clearing = λ has. cc;
        not_refused = λ has. cc;
      }

  -- Without an exact match, the legacy match ties a file only to findings without a contract.
  legacy_uncontracted :
      legacy_match file (if is_empty contracted then cats else uncontracted) ≡ some c
      → In c cats × (is_contracted c ≡ false)
  legacy_uncontracted h = elim (Bool-cases (is_empty contracted)) [
    | inl none_contracted ↦
        let found : In c cats = legacy_match-In file cats c (rw none_contracted at h) in
        elim (Bool-cases (is_contracted c)) [
          | inl yes_contracted ↦ absurd (
              not-In_empty contracted c none_contracted
                (In-keep_if is_contracted c cats found yes_contracted))
          | inr uncontracted_c ↦ (found, uncontracted_c)
        ]
    | inr some_contracted ↦
        let r =
          In-of_keep_if (λ (d : String). not (is_contracted d)) c cats
            (legacy_match-In file uncontracted c (rw some_contracted at h)) in
        (r.0, not-true (is_contracted c) r.1)
  ]

  IsTied-legacy :
      not (is_empty_text (skill_of file)) && any (refused_by (skill_of file)) contracted ≡ false
      → legacy_match file (if is_empty contracted then cats else uncontracted) ≡ some c
      → IsTied file cats c
  IsTied-legacy allowed h =
      let r = legacy_uncontracted h in
      record {
        open_finding = r.0;
        clearing = λ has is_one. cc (r.1, is_one);
        not_refused =
            λ has refused. cc (and_of (is_empty_text (skill_of file)) _ has refused, allowed);
      }
    where
      and_of : (a b : Bool) → a ≡ false → b ≡ true → (not a && b) ≡ true
      and_of a b ha hb = ground arith

  -- Where a generated file is tied to a category, the category is one of the open ones; if the file
  -- names a skill, and the category has a contract or the contract of some open category refuses the
  -- skill, then the skill is the registered clearing skill of the category.
  pub file_matches_finding_categories-IsTied :
      file_matches_finding_categories file cats ≡ some c → IsTied file cats c
  unfolding file_matches_finding_categories
  file_matches_finding_categories-IsTied h = elim (or_match-some _ _ c h) [
    | inl exact ↦ IsTied-exact exact
    | inr (_, rest) ↦
        elim (inexact_cases (has_skill && any (refused_by (skill_of file)) contracted)
          (not (is_empty contracted) && is_empty uncontracted) has_skill
          (first_that (bridges (file_signals file)) contracted)
          (legacy_match file (if is_empty contracted then cats else uncontracted)) c rest) [
            | inl (no_skill, bridged) ↦
                IsTied-bridge (not-false (is_empty_text (skill_of file)) no_skill) bridged
            | inr (allowed, legacy) ↦ IsTied-legacy allowed legacy
          ]
  ]
