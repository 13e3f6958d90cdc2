-- ===== src/Verify/Failures/Waiting.antt =====
-- A delivery that waits, while the others are checked.
use agent_it.Base.{
  ℕ, ◌<◌, String, Bool, true, false, Option, none, ◌≡◌, refl, sym, ◌∙◌, arith, ◌==◌, ==→eq,
  if◌then◌else◌, All-map, All-append, In, In-map, In-append_left, ◌≢◌, subst,
}
use agent_it.Store.Deliveries.{Delivery, Deliveries, create_delivery, update_delivery, updated}
use agent_it.Verify.Kept.{Stable}
use agent_it.Verify.Failures.Marks.{AreOpen}

-- A waiting delivery stands in the table as it was, and no row with its identifier has a resolution.
pub record IsWaiting (low : ℕ) (d : Delivery) (rows : Deliveries) : Type 0 where
  pub old : d.id < low
  pub stands : In d rows
  pub is_open : AreOpen d.id rows

other_row :
    (s r : Option String) (pr : Bool) (i j : ℕ) (b : Bool) (d : Delivery)
    → i ≢ j
    → (d.id == j) ≡ b
    → (d.id ≡ i → d.finding_resolution ≡ none)
    → (if b then updated s r pr d else d).id ≡ i
    → (if b then updated s r pr d else d).finding_resolution ≡ none
other_row s r pr i j false d ne e h k = h k
other_row s r pr i j true d ne e h k = absurd (ne (sym k ∙ ==→eq d.id j e))

-- An update of another row, and a new row, leave it as it is.
pub update-IsWaiting :
    (low j : ℕ) (s r : Option String) (pr : Bool) (d : Delivery) (rows : Deliveries)
    → d.id ≢ j
    → IsWaiting low d rows
    → IsWaiting low d (update_delivery j s r pr rows)
unfolding update_delivery
update-IsWaiting low j s r pr d rows ne w = record {
  old = w.old;
  stands =
      subst (λ (x : Delivery). In x (update_delivery j s r pr rows)) (same (d.id == j) refl)
        (In-map (λ (x : Delivery). if x.id == j then updated s r pr x else x) d rows w.stands);
  is_open = All-map _ _ _ rows (λ e h. other_row s r pr d.id j (e.id == j) e ne refl h) w.is_open;
}
  where
    same : (b : Bool) → (d.id == j) ≡ b → (if b then updated s r pr d else d) ≡ d
    same false e = refl
    same true e = absurd (ne (==→eq d.id j e))

pub waiting-Stable : (low : ℕ) (d : Delivery) → Stable low (IsWaiting low d)
unfolding create_delivery
waiting-Stable low d = record {
  creates = λ row a keys rows le w. record {
    old = w.old;
    stands = In-append_left d rows _ w.stands;
    is_open = All-append _ rows _ w.is_open ((λ e. refl), tt);
  };
  updates = λ row s r pr rows le w.
      update-IsWaiting low row s r pr d rows (λ e. omega (arith, le, w.old, e)) w;
}
