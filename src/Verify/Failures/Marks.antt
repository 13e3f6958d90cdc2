-- ===== src/Verify/Failures/Marks.antt =====
-- Marking a delivery as still present, or as resolved, and the failures of a category.
use agent_it.Base.{
  ℕ, suc, ◌≤◌, ◌<◌, String, Bool, true, false, ◌&&◌, none, some, [], ◌∷◌, ◌≡◌, refl, arith, ltb,
  lt→ltb, ◌==◌, ==_refl, ==→eq, if◌then◌else◌, str_eq, All, In,
}
use agent_it.Store.Deliveries.{
  Delivery, Deliveries, update_delivery, updated, is_still_present, targets,
}
use agent_it.Verify.Failures.{failures, is_old_failure, map-failures, map-more, map-one_more}

-- No row with the identifier has a resolution.
abbrev pub AreOpen : ℕ → Deliveries → Type 0
AreOpen i rows = All (λ (r : Delivery). r.id ≡ i → r.finding_resolution ≡ none) rows

module _ (low : ℕ) (app category : String) where
  still_failure :
      (b : Bool) (d : Delivery)
      → is_old_failure low app category d ≡ true
      → is_old_failure low app category
          (if b then updated none (some "still_present") false d else d)
        ≡ true
  still_failure false d h = h
  still_failure true d h =
      of_tests (ltb d.id low) (str_eq d.app_name app) (is_still_present d.finding_resolution)
        (targets category d.target_findings) h
    where
      of_tests : (a b c e : Bool) → (a && (b && c && e)) ≡ true → (a && (b && true && e)) ≡ true
      of_tests a b c e k = ground arith

  -- A delivery of the application that waits and targets the category.
  pub record IsUnresolved (d : Delivery) : Type 0 where
    pub old : d.id < low
    pub of_app : str_eq d.app_name app ≡ true
    pub unresolved : d.finding_resolution ≡ none

  -- One that is marked as still present is one failure more.
  pub mark-failures :
      (rows : Deliveries) (d : Delivery)
      → In d rows
      → IsUnresolved d
      → targets category d.target_findings ≡ true
      → suc (failures low app category rows)
        ≤ failures low app category (update_delivery d.id none (some "still_present") false rows)
  unfolding update_delivery
  mark-failures rows d m u t =
      map-one_more low app category _ rows d (λ r h. still_failure (r.id == d.id) r h) m
        (rw u.unresolved
          (of_app_only (ltb d.id low) (str_eq d.app_name app) (targets category d.target_findings)))
        (rw (==_refl d.id) (now (lt→ltb d.id low u.old) u.of_app t))
    where
      of_app_only : (a b c : Bool) → (a && (b && false && c)) ≡ false
      of_app_only a b c = ground arith

      now :
          ltb d.id low ≡ true
          → str_eq d.app_name app ≡ true
          → targets category d.target_findings ≡ true
          → (ltb d.id low && (str_eq d.app_name app && true && targets category d.target_findings))
            ≡ true
      now a b c = rw (a, b, c) refl

  pub mark-failures-le :
      (rows : Deliveries) (i : ℕ)
      → failures low app category rows
        ≤ failures low app category (update_delivery i none (some "still_present") false rows)
  unfolding update_delivery
  mark-failures-le rows i = map-more low app category _ rows (λ r h. still_failure (r.id == i) r h)

  resolved_row :
      (b : Bool) (i : ℕ) (d : Delivery)
      → (d.id == i) ≡ b
      → (d.id ≡ i → d.finding_resolution ≡ none)
      → is_old_failure low app category (if b then updated none (some "resolved") false d else d)
        ≡ is_old_failure low app category d
  resolved_row false i d e k = refl
  resolved_row true i d e k = rw (k (==→eq d.id i e)) refl

  resolved_rows :
      (i : ℕ) (rows : Deliveries)
      → AreOpen i rows
      → All
          (λ (d : Delivery).
            is_old_failure low app category
              (if d.id == i then updated none (some "resolved") false d else d)
            ≡ is_old_failure low app category d)
          rows
  resolved_rows i [] h = tt
  resolved_rows i (d ∷ rows) (h, hs) =
      (resolved_row (d.id == i) i d refl h, resolved_rows i rows hs)

  -- One that is marked as resolved is no failure, as it was none before.
  pub mark-resolved :
      (rows : Deliveries) (i : ℕ)
      → AreOpen i rows
      → failures low app category (update_delivery i none (some "resolved") false rows)
        ≡ failures low app category rows
  unfolding update_delivery
  mark-resolved rows i h = map-failures low app category _ rows (resolved_rows i rows h)
