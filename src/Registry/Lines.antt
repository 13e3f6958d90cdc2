-- ===== src/Registry/Lines.antt =====
-- `expected_clear_lines` writes one line for each distinct category.
use agent_it.Base.{
  String, List, [], ◌∷◌, ◌≡◌, refl, ap, ◌∙◌, Bool, true, ◌&&◌, ◌||◌, not, str_eq, eq_iff, any, map,
  keep_if, keep_if-congr, keep_if-keep_if, Bool-cases, inl, inr, arith,
}
use agent_it.Registry.{FindingKey, clear_line, clear_lines_from, expected_clear_lines}

-- Each text once, at its first place.
abbrev pub distinct : List String → List String
distinct [] = []
distinct (x ∷ xs) = x ∷ keep_if (λ (y : String). not (str_eq x y)) (distinct xs)

abbrev pub categories : List FindingKey → List String
categories fs = map (λ (f : FindingKey). f.0) fs

abbrev is_seen : List String → String → Bool
is_seen seen x = any (λ (s : String). str_eq s x) seen

abbrev unseen : List String → List String → List String
unseen seen xs = keep_if (λ (x : String). not (is_seen seen x)) xs

-- What is not `c` and not seen, is not seen with `c` added.
unseen-cons :
    (c : String) (seen xs : List String)
    → unseen seen (keep_if (λ (y : String). not (str_eq c y)) xs) ≡ unseen (c ∷ seen) xs
unseen-cons c seen xs =
    keep_if-keep_if _ _ xs ∙ keep_if-congr _ _ (λ a. pointwise (str_eq c a) (is_seen seen a)) xs
  where
    pointwise : (a b : Bool) → (not a && not b) ≡ not (a || b)
    pointwise a b = ground arith

-- A seen `c` need not be removed first.
unseen_of_seen :
    (c : String) (seen xs : List String)
    → is_seen seen c ≡ true
    → unseen seen (keep_if (λ (y : String). not (str_eq c y)) xs) ≡ unseen seen xs
unseen_of_seen c seen xs h = keep_if-keep_if _ _ xs ∙ keep_if-congr _ _ (λ a. pointwise a) xs
  where
    pointwise : (a : String) → (not (str_eq c a) && not (is_seen seen a)) ≡ not (is_seen seen a)
    pointwise a = ground (arith, eq_iff c a)

clear_lines_from_lem :
    (seen : List String) (fs : List FindingKey)
    → clear_lines_from seen fs ≡ map clear_line (unseen seen (distinct (categories fs)))
unfolding clear_lines_from
clear_lines_from_lem seen [] = refl
clear_lines_from_lem seen ((cat, d) ∷ fs) = elim (Bool-cases (is_seen seen cat)) [
  | inl old ↦
      rw (old, unseen_of_seen cat seen (distinct (categories fs)) old)
        (clear_lines_from_lem seen fs)
  | inr new ↦
      rw (new, unseen-cons cat seen (distinct (categories fs)))
        (ap (λ (l : List String). clear_line cat ∷ l) (clear_lines_from_lem (cat ∷ seen) fs))
]

unseen-nil : (xs : List String) → unseen [] xs ≡ xs
unseen-nil [] = refl
unseen-nil (x ∷ xs) = ap (λ (l : List String). x ∷ l) (unseen-nil xs)

-- The lines of a PR body are the clear lines of the distinct categories of the findings, in the
-- order in which the categories first appear: a category with many findings has one line.
pub expected_clear_lines_lem :
    (fs : List FindingKey) → expected_clear_lines fs ≡ map clear_line (distinct (categories fs))
unfolding expected_clear_lines
expected_clear_lines_lem fs =
    clear_lines_from_lem [] fs ∙ ap (map clear_line) (unseen-nil (distinct (categories fs)))
