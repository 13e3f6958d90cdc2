-- ===== src/Base/Sorting.antt =====
-- `sorted(xs, key=f)`: a stable insertion sort, by a test on two elements or by keys that are texts.
use Prim.Native.Nat.{ℕ, ◌+◌}
use Prim.Native.String.{String, compare}
use mathlib.Core.Path.{◌≡◌, refl}
use mathlib.Core.Logic.{inl, inr}
use mathlib.Core.Bool.{Bool, true, false}
use mathlib.Core.List.{List, [], ◌∷◌}
use native.Mathlib.Omega.{arith}
use text.Mathlib.Text.{is_le}
use agent_it.Base.Tests.{if◌then◌else◌, Bool-cases}
use agent_it.Base.Lists.{All, In, All-In, All-of_In}

-- A total over the elements.
abbrev pub total : {A : Type 0} → (A → ℕ) → List A → ℕ
total g [] = 0
total g (x ∷ xs) = g x + total g xs

All-if :
    {A : Type 0} (b : Bool) (P : A → Type 0) (x y : A) (ys zs : List A)
    → P x
    → All P (y ∷ ys)
    → All P zs
    → All P (if b then x ∷ y ∷ ys else y ∷ zs)
All-if true P x y ys zs h hs kept = (h, hs)
All-if false P x y ys zs h hs kept = (hs.0, kept)

-- `first x y`: `x` may stand before `y`.
module _ {A : Type 0} (first : A → A → Bool) where
  insert_sorted : A → List A → List A
  insert_sorted x [] = x ∷ []
  insert_sorted x (y ∷ ys) = if first x y then x ∷ y ∷ ys else y ∷ insert_sorted x ys

  unfoldable pub sort_with : List A → List A
  unfolding insert_sorted
  sort_with [] = []
  sort_with (x ∷ xs) = insert_sorted x (sort_with xs)

  total-insert_sorted :
      (g : A → ℕ) (x : A) (xs : List A) → total g (insert_sorted x xs) ≡ g x + total g xs
  unfolding insert_sorted
  total-insert_sorted g x [] = refl
  total-insert_sorted g x (y ∷ ys) = ground (arith, total-insert_sorted g x ys)

  pub total-sort_with : (g : A → ℕ) (xs : List A) → total g (sort_with xs) ≡ total g xs
  unfolding sort_with
  total-sort_with g [] = refl
  total-sort_with g (x ∷ xs) =
      omega (arith, total-insert_sorted g x (sort_with xs), total-sort_with g xs)

  All-insert_sorted :
      (P : A → Type 0) (x : A) (xs : List A) → P x → All P xs → All P (insert_sorted x xs)
  unfolding insert_sorted
  All-insert_sorted P x [] h hs = (h, tt)
  All-insert_sorted P x (y ∷ ys) h hs = All-if _ P x y ys _ h hs (All-insert_sorted P x ys h hs.1)

  pub All-sort_with : (P : A → Type 0) (xs : List A) → All P xs → All P (sort_with xs)
  unfolding sort_with
  All-sort_with P [] h = tt
  All-sort_with P (x ∷ xs) h = All-insert_sorted P x (sort_with xs) h.0 (All-sort_with P xs h.1)

  In-insert_sorted : (a x : A) (xs : List A) → In a (x ∷ xs) → In a (insert_sorted x xs)
  unfolding insert_sorted
  In-insert_sorted a x [] m = m
  In-insert_sorted a x (y ∷ ys) m = elim (Bool-cases (first x y)) [
    | inl le ↦ rw le m
    | inr gt ↦ rw gt (moved m (In-insert_sorted a x ys))
  ]
    where
      moved :
          In a (x ∷ y ∷ ys)
          → (In a (x ∷ ys) → In a (insert_sorted x ys))
          → In a (y ∷ insert_sorted x ys)
      moved (inl e) rec = inr (rec (inl e))
      moved (inr (inl e)) rec = inl e
      moved (inr (inr n)) rec = inr (rec (inr n))

  pub In-sort_with : (a : A) (xs : List A) → In a xs → In a (sort_with xs)
  unfolding sort_with
  In-sort_with a [] m = m
  In-sort_with a (x ∷ xs) m = In-insert_sorted a x (sort_with xs) (later m (In-sort_with a xs))
    where
      later : In a (x ∷ xs) → (In a xs → In a (sort_with xs)) → In a (x ∷ sort_with xs)
      later (inl e) rec = inl e
      later (inr n) rec = inr (rec n)

  pub In-of_sort_with : (a : A) (xs : List A) → In a (sort_with xs) → In a xs
  In-of_sort_with a xs m =
      All-In (λ (b : A). In b xs) a (sort_with xs)
        (All-sort_with (λ (b : A). In b xs) xs (All-of_In (λ (b : A). In b xs) xs (λ b n. n))) m

-- A key that is a text.
abbrev pub by_text : {A : Type 0} → (A → String) → A → A → Bool
by_text f x y = is_le (compare (f x) (f y))

module _ {A : Type 0} (f : A → String) where
  unfoldable pub sort_by : List A → List A
  unfolding sort_with
  sort_by xs = sort_with (by_text f) xs

  pub total-sort_by : (g : A → ℕ) (xs : List A) → total g (sort_by xs) ≡ total g xs
  unfolding sort_by
  total-sort_by g xs = total-sort_with (by_text f) g xs

  pub All-sort_by : (P : A → Type 0) (xs : List A) → All P xs → All P (sort_by xs)
  unfolding sort_by
  All-sort_by P xs h = All-sort_with (by_text f) P xs h

  pub In-sort_by : (a : A) (xs : List A) → In a xs → In a (sort_by xs)
  unfolding sort_by
  In-sort_by a xs m = In-sort_with (by_text f) a xs m

  pub In-of_sort_by : (a : A) (xs : List A) → In a (sort_by xs) → In a xs
  unfolding sort_by
  In-of_sort_by a xs m = In-of_sort_with (by_text f) a xs m
