-- ===== src/Verify/Failures.antt =====
-- How often a finding failed, among the deliveries that a check starts with.
pub mod Marks
pub mod Waiting
pub mod Retries
pub mod Checked
pub mod Bound
use agent_it.Base.{
  ℕ, suc, ◌+◌, ◌≤◌, ◌<◌, String, Bool, true, false, ◌&&◌, ◌||◌, Option, none, some, List, [], ◌∷◌,
  ◌++◌, ◌≡◌, inl, inr, refl, sym, ap, ◌∙◌, arith, map, ltb, ltb→lt, lt→ltb, ◌==◌, ==_refl, ==→eq,
  if◌then◌else◌, is_some, length, keep_if, count_if, count_if-append, str_eq, any, All, All-map,
  All-append, In, In-map, In-append_left, ◌≢◌, Bool-cases, subst,
}
use agent_it.Registry.{FindingKey}
use agent_it.Store.Deliveries.{
  Delivery, Deliveries, create_delivery, update_delivery, updated, is_failure, is_still_present,
  targets, get_finding_failure_count,
}
use agent_it.Verify.Kept.{Stable}

module _ (low : ℕ) (app category : String) where
  abbrev pub is_old_failure : Delivery → Bool
  is_old_failure d = ltb d.id low && is_failure app category d

  -- The failures of the rows before `low`.
  abbrev pub failures : Deliveries → ℕ
  failures rows = count_if is_old_failure rows

  pub failures-le :
      (rows : Deliveries) → failures rows ≤ get_finding_failure_count app category rows
  unfolding get_finding_failure_count
  failures-le [] = omega arith
  failures-le (d ∷ rows) = by_tests (ltb d.id low) (is_failure app category d) (failures-le rows)
    where
      by_tests :
          (a b : Bool)
          → failures rows ≤ count_if (is_failure app category) rows
          → length (if a && b then d ∷ keep_if is_old_failure rows else keep_if is_old_failure rows)
            ≤ length (
                if b
                then d ∷ keep_if (is_failure app category) rows
                else keep_if (is_failure app category) rows)
      by_tests true true h = omega (arith, h)
      by_tests true false h = h
      by_tests false true h = omega (arith, h)
      by_tests false false h = h

  pub failures-old :
      (rows : Deliveries)
      → All (λ (d : Delivery). d.id < low) rows
      → failures rows ≡ get_finding_failure_count app category rows
  unfolding get_finding_failure_count
  failures-old [] h = refl
  failures-old (d ∷ rows) (h, hs) =
      rw (lt→ltb d.id low h) (by_test (is_failure app category d) (failures-old rows hs))
    where
      by_test :
          (b : Bool)
          → failures rows ≡ count_if (is_failure app category) rows
          → length (if b then d ∷ keep_if is_old_failure rows else keep_if is_old_failure rows)
            ≡ length (
                if b
                then d ∷ keep_if (is_failure app category) rows
                else keep_if (is_failure app category) rows)
      by_test true e = ap suc e
      by_test false e = e

  -- Rows that are changed one by one, with as many failures or with more.
  pub map-failures :
      (f : Delivery → Delivery) (rows : Deliveries)
      → All (λ (d : Delivery). is_old_failure (f d) ≡ is_old_failure d) rows
      → failures (map f rows) ≡ failures rows
  map-failures f [] h = refl
  map-failures f (d ∷ rows) (h, hs) = rw h (by_test (is_old_failure d) (map-failures f rows hs))
    where
      by_test :
          (b : Bool)
          → failures (map f rows) ≡ failures rows
          → length (
              if b
              then f d ∷ keep_if is_old_failure (map f rows)
              else keep_if is_old_failure (map f rows))
            ≡ length (if b then d ∷ keep_if is_old_failure rows else keep_if is_old_failure rows)
      by_test true e = ap suc e
      by_test false e = e

  more_rows :
      (a b : Bool) (d e : Delivery) (xs ys : Deliveries)
      → (a ≡ true → b ≡ true)
      → length xs ≤ length ys
      → length (if a then d ∷ xs else xs) ≤ length (if b then e ∷ ys else ys)
  more_rows true true d e xs ys h le = omega (arith, le)
  more_rows true false d e xs ys h le = absurd (cc (h refl))
  more_rows false true d e xs ys h le = omega (arith, le)
  more_rows false false d e xs ys h le = le

  pub map-more :
      (f : Delivery → Delivery) (rows : Deliveries)
      → ((d : Delivery) → is_old_failure d ≡ true → is_old_failure (f d) ≡ true)
      → failures rows ≤ failures (map f rows)
  map-more f [] h = omega arith
  map-more f (d ∷ rows) h =
      more_rows (is_old_failure d) (is_old_failure (f d)) d (f d) _ _ (h d) (map-more f rows h)

  pub map-one_more :
      (f : Delivery → Delivery) (rows : Deliveries) (e : Delivery)
      → ((d : Delivery) → is_old_failure d ≡ true → is_old_failure (f d) ≡ true)
      → In e rows
      → is_old_failure e ≡ false
      → is_old_failure (f e) ≡ true
      → suc (failures rows) ≤ failures (map f rows)
  map-one_more f [] e h m was now = absurd m
  map-one_more f (d ∷ rows) e h (inl same) was now =
      rw
        (
          ap is_old_failure (sym same) ∙ was,
          ap (λ (x : Delivery). is_old_failure (f x)) (sym same) ∙ now,
        )
        (omega (arith, map-more f rows h))
  map-one_more f (d ∷ rows) e h (inr m) was now =
      by_tests (is_old_failure d) (is_old_failure (f d)) (h d) (map-one_more f rows e h m was now)
    where
      by_tests :
          (a b : Bool)
          → (a ≡ true → b ≡ true)
          → suc (failures rows) ≤ failures (map f rows)
          → suc
              (length (if a then d ∷ keep_if is_old_failure rows else keep_if is_old_failure rows))
            ≤ length (
                if b
                then f d ∷ keep_if is_old_failure (map f rows)
                else keep_if is_old_failure (map f rows))
      by_tests true true k le = omega (arith, le)
      by_tests true false k le = absurd (cc (k refl))
      by_tests false true k le = omega (arith, le)
      by_tests false false k le = le

  -- A row that is not old is no old failure.
  not_old : (d : Delivery) → low ≤ d.id → is_old_failure d ≡ false
  not_old d le = elim (Bool-cases (ltb d.id low)) [
    | inl e ↦ absurd (omega (arith, le, ltb→lt d.id low e))
    | inr e ↦ rw e refl
  ]

  updated-old :
      (b : Bool) (j : ℕ) (s r : Option String) (pr : Bool) (d : Delivery)
      → low ≤ j
      → (d.id == j) ≡ b
      → is_old_failure (if b then updated s r pr d else d) ≡ is_old_failure d
  updated-old false j s r pr d le e = refl
  updated-old true j s r pr d le e =
      let new = subst (λ (n : ℕ). low ≤ n) (sym (==→eq d.id j e)) le in
      not_old (updated s r pr d) new ∙ sym (not_old d new)

  always : (P : Delivery → Type 0) (rows : Deliveries) → ((d : Delivery) → P d) → All P rows
  always P [] h = tt
  always P (d ∷ rows) h = (h d, always P rows h)

  -- New rows and their updates change no old failure.
  pub failures-Stable : (k : ℕ) → Stable low (λ (rows : Deliveries). failures rows ≡ k)
  unfolding update_delivery create_delivery
  failures-Stable k = record {
    creates = λ row a keys rows le h.
        created
          (record {
            id = row;
            app_name = a;
            status = "in_progress";
            target_findings = keys;
            finding_resolution = none;
            opened_pr = false;
          })
          rows le h;
    updates = λ row s r pr rows le h.
        map-failures _ rows (always _ rows (λ d. updated-old (d.id == row) row s r pr d le refl))
        ∙ h;
  }
    where
      created :
          (d : Delivery) (rows : Deliveries)
          → low ≤ d.id
          → failures rows ≡ k
          → failures (rows ++ d ∷ []) ≡ k
      created d rows le h =
          count_if-append is_old_failure rows (d ∷ [])
          ∙ ap (λ (b : Bool). failures rows + length (if b then d ∷ [] else [])) (not_old d le)
          ∙ omega (arith, h)
