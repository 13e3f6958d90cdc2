-- ===== src/Base/Lists.antt =====
-- Lists measured by native numbers, under the library's names, and lists as Python uses them.
use Prim.Native.Nat.{ℕ, zero, suc, ◌+◌, ◌-◌, ◌≤◌}
use mathlib.Core.Path.{◌≡◌, refl, sym, ap, ◌∙◌, subst}
use mathlib.Core.Logic.{◌⊎◌, inl, inr}
use mathlib.Core.Bool.{Bool, true, false, ◌&&◌, ◌||◌}
use mathlib.Core.List.{List, [], ◌∷◌, ◌++◌, map}
use mathlib.Core.Option.{Option, none, some}
use native.Mathlib.Omega.{arith}
use agent_it.Base.Tests.{if◌then◌else◌, Bool-cases, and_true}

module _ {ℓ} {A : Type ℓ} where
  abbrev pub length : List A → ℕ
  length [] = 0
  length (x ∷ xs) = suc (length xs)

  abbrev pub take : ℕ → List A → List A
  take zero xs = []
  take (suc n) [] = []
  take (suc n) (x ∷ xs) = x ∷ take n xs

  abbrev pub drop : ℕ → List A → List A
  drop zero xs = xs
  drop (suc n) [] = []
  drop (suc n) (x ∷ xs) = drop n xs

  -- `[x for x in xs if p(x)]`
  abbrev pub keep_if : (A → Bool) → List A → List A
  keep_if p [] = []
  keep_if p (x ∷ xs) = if p x then x ∷ keep_if p xs else keep_if p xs

  abbrev pub any : (A → Bool) → List A → Bool
  any p [] = false
  any p (x ∷ xs) = p x || any p xs

  abbrev pub all : (A → Bool) → List A → Bool
  all p [] = true
  all p (x ∷ xs) = p x && all p xs

  -- `next((x for x in xs if p(x)), None)`
  abbrev pub first_that : (A → Bool) → List A → Option A
  first_that p [] = none
  first_that p (x ∷ xs) = if p x then some x else first_that p xs

  -- the first result that is not None, for a loop that returns it
  abbrev pub first_some {κ} : {B : Type κ} → (A → Option B) → List A → Option B
  first_some f [] = none
  first_some f (x ∷ xs) = elim (f x) [ some b ↦ some b | none ↦ first_some f xs ]

  abbrev pub count_if : (A → Bool) → List A → ℕ
  count_if p xs = length (keep_if p xs)

  abbrev pub is_empty : List A → Bool
  is_empty [] = true
  is_empty (x ∷ xs) = false

  -- A predicate holds of every element, or of some element, as a type that computes.
  abbrev pub All {κ} : (A → Type κ) → List A → Type κ
  All P [] = Unit
  All P (x ∷ xs) = P x × All P xs

  pub length-append : (xs ys : List A) → length (xs ++ ys) ≡ length xs + length ys
  length-append [] ys = omega arith
  length-append (x ∷ xs) ys = omega (arith, length-append xs ys)

  pub take-append-drop : (n : ℕ) (xs : List A) → take n xs ++ drop n xs ≡ xs
  take-append-drop zero xs = refl
  take-append-drop (suc n) [] = refl
  take-append-drop (suc n) (x ∷ xs) = ap (λ ys. x ∷ ys) (take-append-drop n xs)

  pub length-take-le : (n : ℕ) (xs : List A) → length (take n xs) ≤ n
  length-take-le zero xs = omega arith
  length-take-le (suc n) [] = omega arith
  length-take-le (suc n) (x ∷ xs) = omega (arith, length-take-le n xs)

  pub length-drop : (n : ℕ) (xs : List A) → length (drop n xs) ≡ length xs - n
  length-drop zero xs = omega arith
  length-drop (suc n) [] = omega arith
  length-drop (suc n) (x ∷ xs) = omega (arith, length-drop n xs)

count_if-append_lem :
    {A : Type 0} (p : A → Bool) (x : A) (xs ys : List A)
    → count_if p (xs ++ ys) ≡ count_if p xs + count_if p ys
    → count_if p (x ∷ xs ++ ys) ≡ count_if p (x ∷ xs) + count_if p ys
count_if-append_lem p x xs ys h = elim (Bool-cases (p x)) [
  | inl e ↦ rw e (omega (arith, h))
  | inr e ↦ rw e h
]

pub count_if-append :
    {A : Type 0} (p : A → Bool) (xs ys : List A)
    → count_if p (xs ++ ys) ≡ count_if p xs + count_if p ys
count_if-append p [] ys = omega arith
count_if-append p (x ∷ xs) ys = count_if-append_lem p x xs ys (count_if-append p xs ys)

pub All-map :
    {A : Type 0} (P Q : A → Type 0) (f : A → A) (xs : List A)
    → ((x : A) → P x → Q (f x))
    → All P xs
    → All Q (map f xs)
All-map P Q f [] h p = tt
All-map P Q f (x ∷ xs) h (p, ps) = (h x p, All-map P Q f xs h ps)

pub All-append :
    {A : Type 0} (P : A → Type 0) (xs ys : List A) → All P xs → All P ys → All P (xs ++ ys)
All-append P [] ys h k = k
All-append P (x ∷ xs) ys (h, hs) k = (h, All-append P xs ys hs k)

-- Membership as a type that computes: which position holds the element.
abbrev pub In : {A : Type 0} → A → List A → Type 0
In a [] = ⊥
In a (x ∷ xs) = (a ≡ x) ⊎ In a xs

module _ {A : Type 0} where
  pub In-append_left : (a : A) (xs ys : List A) → In a xs → In a (xs ++ ys)
  In-append_left a (x ∷ xs) ys (inl e) = inl e
  In-append_left a (x ∷ xs) ys (inr h) = inr (In-append_left a xs ys h)
  In-append_left a [] ys h = absurd h

  pub In-append_right : (a : A) (xs ys : List A) → In a ys → In a (xs ++ ys)
  In-append_right a [] ys h = h
  In-append_right a (x ∷ xs) ys h = inr (In-append_right a xs ys h)

  pub In-append : (a : A) (xs ys : List A) → In a (xs ++ ys) → In a xs ⊎ In a ys
  In-append a [] ys h = inr h
  In-append a (x ∷ xs) ys (inl e) = inl (inl e)
  In-append a (x ∷ xs) ys (inr h) = elim (In-append a xs ys h) [
    | inl l ↦ inl (inr l)
    | inr r ↦ inr r
  ]

  pub In-map : {B : Type 0} (f : A → B) (a : A) (xs : List A) → In a xs → In (f a) (map f xs)
  In-map f a [] h = absurd h
  In-map f a (x ∷ xs) (inl e) = inl (ap f e)
  In-map f a (x ∷ xs) (inr h) = inr (In-map f a xs h)

  pub In-keep_if : (p : A → Bool) (a : A) (xs : List A) → In a xs → p a ≡ true → In a (keep_if p xs)
  In-keep_if p a [] h t = absurd h
  In-keep_if p a (x ∷ xs) (inl e) t = rw (ap p (sym e) ∙ t) (inl e)
  In-keep_if p a (x ∷ xs) (inr h) t = elim (Bool-cases (p x)) [
    | inl kept ↦ rw kept (inr (In-keep_if p a xs h t))
    | inr gone ↦ rw gone (In-keep_if p a xs h t)
  ]

  In-of_cons_if :
      (b : Bool) (p : A → Bool) (a x : A) (xs ys : List A)
      → p x ≡ b
      → (In a ys → In a xs × (p a ≡ true))
      → In a (if b then x ∷ ys else ys)
      → In a (x ∷ xs) × (p a ≡ true)
  In-of_cons_if true p a x xs ys e rec (inl h) = (inl h, ap p h ∙ e)
  In-of_cons_if true p a x xs ys e rec (inr h) = let r = rec h in (inr r.0, r.1)
  In-of_cons_if false p a x xs ys e rec h = let r = rec h in (inr r.0, r.1)

  pub In-of_keep_if :
      (p : A → Bool) (a : A) (xs : List A) → In a (keep_if p xs) → In a xs × (p a ≡ true)
  In-of_keep_if p a [] h = absurd h
  In-of_keep_if p a (x ∷ xs) h =
      In-of_cons_if (p x) p a x xs (keep_if p xs) refl (In-of_keep_if p a xs) h

  pub All-In : (P : A → Type 0) (a : A) (xs : List A) → All P xs → In a xs → P a
  All-In P a [] h m = absurd m
  All-In P a (x ∷ xs) (h, hs) (inl e) = subst P (sym e) h
  All-In P a (x ∷ xs) (h, hs) (inr m) = All-In P a xs hs m

  pub All-of_In : (P : A → Type 0) (xs : List A) → ((a : A) → In a xs → P a) → All P xs
  All-of_In P [] h = tt
  All-of_In P (x ∷ xs) h = (h x (inl refl), All-of_In P xs (λ a m. h a (inr m)))

  pub any-In : (p : A → Bool) (xs : List A) → any p xs ≡ true → (a : A) × In a xs × (p a ≡ true)
  any-In p [] h = absurd (cc)
  any-In p (x ∷ xs) h = elim (Bool-cases (p x)) [
    | inl e ↦ (x, inl refl, e)
    | inr e ↦ let r = any-In p xs (rw e at h) in (r.0, inr r.1, r.2)
  ]

  pub In-any : (p : A → Bool) (a : A) (xs : List A) → In a xs → p a ≡ true → any p xs ≡ true
  In-any p a [] h t = absurd h
  In-any p a (x ∷ xs) (inl e) t = rw (ap p (sym e) ∙ t)
  In-any p a (x ∷ xs) (inr h) t = ground (arith, In-any p a xs h t)

  pub all-In : (p : A → Bool) (a : A) (xs : List A) → all p xs ≡ true → In a xs → p a ≡ true
  all-In p a [] h m = absurd m
  all-In p a (x ∷ xs) h (inl e) = ap p e ∙ (and_true (p x) (all p xs) h).0
  all-In p a (x ∷ xs) h (inr m) = all-In p a xs ((and_true (p x) (all p xs) h).1) m

  pub first_that-In :
      (p : A → Bool) (xs : List A) (a : A) → first_that p xs ≡ some a → In a xs × (p a ≡ true)
  first_that-In p [] a h = absurd (cc)
  first_that-In p (x ∷ xs) a h = elim (Bool-cases (p x)) [
    | inl e ↦ let same : x ≡ a = (ground arith) in (inl (sym same), ap p (sym same) ∙ e)
    | inr e ↦ let r = first_that-In p xs a (rw e at h) in (inr r.0, r.1)
  ]

module _ {ℓ} {A : Type ℓ} where
  pub keep_if-congr :
      (p q : A → Bool) → ((a : A) → p a ≡ q a) → (xs : List A) → keep_if p xs ≡ keep_if q xs
  keep_if-congr p q h [] = refl
  keep_if-congr p q h (x ∷ xs) = ground (arith, h x, keep_if-congr p q h xs)

  pub keep_if-keep_if :
      (p q : A → Bool) (xs : List A) → keep_if p (keep_if q xs) ≡ keep_if (λ a. q a && p a) xs
  keep_if-keep_if p q [] = refl
  keep_if-keep_if p q (x ∷ xs) = ground (arith, keep_if-keep_if p q xs)

  pub keep_if-dropped :
      (p : A → Bool) (x : A) (xs : List A) → p x ≡ false → keep_if p (xs ++ x ∷ []) ≡ keep_if p xs
  keep_if-dropped p x [] h = rw h refl
  keep_if-dropped p x (y ∷ xs) h = rw (keep_if-dropped p x xs h) refl

  pub length-keep_if-le : (p : A → Bool) (xs : List A) → length (keep_if p xs) ≤ length xs
  length-keep_if-le p [] = omega arith
  length-keep_if-le p (x ∷ xs) = ground (arith, length-keep_if-le p xs)

module _ {A B : Type 0} where
  -- A result of a loop comes from one of its elements.
  pub first_some-In :
      (f : A → Option B) (xs : List A) (b : B)
      → first_some f xs ≡ some b
      → (a : A) × In a xs × (f a ≡ some b)
  first_some-In f [] b h = cc
  first_some-In f (x ∷ xs) b h = by_first (f x) refl (first_some-In f xs b) h
    where
      by_first :
          (o : Option B)
          → f x ≡ o
          → (first_some f xs ≡ some b → (a : A) × In a xs × (f a ≡ some b))
          → (elim o [ some c ↦ some c | none ↦ first_some f xs ]) ≡ some b
          → (a : A) × In a (x ∷ xs) × (f a ≡ some b)
      by_first (some c) e rec g = (x, inl refl, e ∙ g)
      by_first none e rec g = let r = rec g in (r.0, inr r.1, r.2)
