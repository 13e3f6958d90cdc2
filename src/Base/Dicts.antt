-- ===== src/Base/Dicts.antt =====
-- Python's `dict` as an association list in insertion order, over keys with a Boolean equality.
use mathlib.Core.Path.{◌≡◌, refl, ap, sym, ◌∙◌}
use mathlib.Core.Logic.{◌↔◌, inl, inr}
use mathlib.Core.Bool.{Bool, true, false}
use mathlib.Core.Option.{Option, none, some}
use mathlib.Core.List.{List, [], ◌∷◌, ◌++◌, append-nil, append_assoc}
use native.Mathlib.Omega.{arith}
use Prim.Native.String.{String}
use Prim.Native.Nat.{ℕ}
use text.Mathlib.Text.{◌==◌ as str_eq}
use text.Mathlib.TextEquality.{eq_iff}
use agent_it.Base.Tests.{get_or, if◌then◌else◌, Bool-cases, ◌==◌}
use agent_it.Base.Lists.{In, keep_if}

pub record Eq (K : Type 0) : Type 0 where
  pub beq : K → K → Bool
  pub beq_iff : (a b : K) → (beq a b ≡ true) ↔ (a ≡ b)

instance abbrev pub string_eq : Eq String
string_eq = record { beq = str_eq; beq_iff = eq_iff }

pub nat_iff : (a b : ℕ) → ((a == b) ≡ true) ↔ (a ≡ b)
nat_iff a b = ground arith

instance abbrev pub nat_eq : Eq ℕ
nat_eq = record { beq = ◌==◌; beq_iff = nat_iff }

-- Two keys at once, such as `(topic, offset)`.
abbrev pub pair_beq : {A B : Type 0} (x : Eq A) (y : Eq B) → A × B → A × B → Bool
pair_beq x y (a, b) (c, d) = if x.beq a c then y.beq b d else false

pub pair_iff :
    {A B : Type 0} (x : Eq A) (y : Eq B) (p q : A × B) → (pair_beq x y p q ≡ true) ↔ (p ≡ q)
pair_iff {A} {B} x y (a, b) (c, d) = elim (Bool-cases (x.beq a c)) [
  | inl e ↦ (
    λ h. λ i. ((x.beq_iff a c).0 e i, (y.beq_iff b d).0 (rw e at h) i),
    λ h. rw e ((y.beq_iff b d).1 (ap (λ (p : A × B). p.1) h)),
  )
  | inr e ↦ (λ h. cc, λ h. cc ((x.beq_iff a c).1 (ap (λ (p : A × B). p.0) h)))
]

abbrev pub pair_eq : {A B : Type 0} → Eq A → Eq B → Eq (A × B)
pair_eq x y = record { beq = pair_beq x y; beq_iff = pair_iff x y }

module _ {K V : Type 0} ⦃e : Eq K⦄ where
  -- `d.get(k)`
  unfoldable pub lookup : K → List (K × V) → Option V
  lookup k [] = none
  lookup k ((j, v) ∷ d) = if e.beq j k then some v else lookup k d

  -- `d[k] = v`: a key that is present keeps its place.
  unfoldable pub insert : K → V → List (K × V) → List (K × V)
  insert k v [] = (k, v) ∷ []
  insert k v ((j, w) ∷ d) = if e.beq j k then (k, v) ∷ d else (j, w) ∷ insert k v d

  -- `d.pop(k, None)`
  unfoldable pub remove : K → List (K × V) → List (K × V)
  remove k [] = []
  remove k ((j, w) ∷ d) = let rest = remove k d in if e.beq j k then rest else (j, w) ∷ rest

  pub lookup-insert :
      (k j : K) (v : V) (d : List (K × V))
      → lookup j (insert k v d) ≡ (if e.beq k j then some v else lookup j d)
  unfolding lookup insert
  lookup-insert k j v [] = refl
  lookup-insert k j v ((i, w) ∷ d) =
      ground (arith, e.beq_iff k j, e.beq_iff i k, e.beq_iff i j, lookup-insert k j v d)

  pub lookup-remove :
      (k j : K) (d : List (K × V))
      → lookup j (remove k d) ≡ (if e.beq k j then none else lookup j d)
  unfolding lookup remove
  lookup-remove k j [] = ground arith
  lookup-remove k j ((i, w) ∷ d) =
      ground (arith, e.beq_iff k j, e.beq_iff i k, e.beq_iff i j, lookup-remove k j d)

  pub lookup-In : (k : K) (v : V) (d : List (K × V)) → lookup k d ≡ some v → In (k, v) d
  unfolding lookup
  lookup-In k v [] h = absurd (cc)
  lookup-In k v ((j, w) ∷ d) h = elim (Bool-cases (e.beq j k)) [
    | inl same ↦
        let found : some w ≡ some v = (rw same at h) in
        inl λ i. (sym ((e.beq_iff j k).0 same) i, some_inj w v found i)
    | inr other ↦ inr (lookup-In k v d (rw other at h))
  ]
    where
      some_inj : (a b : V) → some a ≡ some b → b ≡ a
      some_inj a b h = cc

module _ {K V : Type 0} ⦃e : Eq K⦄ where
  abbrev pub has_key : K → List (K × V) → Bool
  has_key k [] = false
  has_key k ((j, v) ∷ d) = if e.beq j k then true else has_key k d

  -- No key stands twice, as in every `dict`.
  abbrev pub IsDict : List (K × V) → Type 0
  IsDict [] = Unit
  IsDict ((k, v) ∷ d) = (has_key k d ≡ false) × IsDict d

  pub lookup_absent : (k : K) (d : List (K × V)) → has_key k d ≡ false → lookup k d ≡ none
  unfolding lookup
  lookup_absent k [] h = refl
  lookup_absent k ((j, v) ∷ d) h = ground (arith, lookup_absent k d)

  In-has_key : (k : K) (v : V) (d : List (K × V)) → In (k, v) d → has_key k d ≡ true
  In-has_key k v [] m = absurd m
  In-has_key k v ((j, w) ∷ d) (inl same) =
      rw ((e.beq_iff j k).1 (ap (λ (p : K × V). p.0) (sym same))) refl
  In-has_key k v ((j, w) ∷ d) (inr m) = ground (arith, In-has_key k v d m)

  pub In-lookup : (k : K) (v : V) (d : List (K × V)) → IsDict d → In (k, v) d → lookup k d ≡ some v
  unfolding lookup
  In-lookup k v [] h m = absurd m
  In-lookup k v ((j, w) ∷ d) h (inl same) =
      rw ((e.beq_iff j k).1 (ap (λ (p : K × V). p.0) (sym same)), ap (λ (p : K × V). p.1) same) refl
  In-lookup k v ((j, w) ∷ d) h (inr m) = elim (Bool-cases (e.beq j k)) [
    | inl same ↦
        absurd (
          cc
            (sym h.0 ∙ (ap (λ (i : K). has_key i d) ((e.beq_iff j k).0 same) ∙ In-has_key k v d m)))
    | inr other ↦ rw other (In-lookup k v d h.1 m)
  ]

  has_key-insert :
      (k j : K) (v : V) (d : List (K × V))
      → has_key j (insert k v d) ≡ (if e.beq k j then true else has_key j d)
  unfolding insert
  has_key-insert k j v [] = ground arith
  has_key-insert k j v ((i, w) ∷ d) =
      ground (arith, e.beq_iff k j, e.beq_iff i k, e.beq_iff i j, has_key-insert k j v d)

  has_key-remove :
      (k j : K) (d : List (K × V))
      → has_key j (remove k d) ≡ (if e.beq k j then false else has_key j d)
  unfolding remove
  has_key-remove k j [] = ground arith
  has_key-remove k j ((i, w) ∷ d) =
      ground (arith, e.beq_iff k j, e.beq_iff i k, e.beq_iff i j, has_key-remove k j d)

  pub insert-IsDict : (k : K) (v : V) (d : List (K × V)) → IsDict d → IsDict (insert k v d)
  unfolding insert
  insert-IsDict k v [] h = (refl, tt)
  insert-IsDict k v ((j, w) ∷ d) h = elim (Bool-cases (e.beq j k)) [
    | inl same ↦
        let moved : has_key k d ≡ false = (ground (arith, e.beq_iff j k)) in rw same (moved, h.1)
    | inr other ↦
        let free : has_key j (insert k v d) ≡ false =
          (ground (arith, has_key-insert k j v d, e.beq_iff j k, e.beq_iff k j)) in
        rw other (free, insert-IsDict k v d h.1)
  ]

  pub remove-IsDict : (k : K) (d : List (K × V)) → IsDict d → IsDict (remove k d)
  unfolding remove
  remove-IsDict k [] h = tt
  remove-IsDict k ((j, w) ∷ d) h = elim (Bool-cases (e.beq j k)) [
    | inl same ↦ rw same (remove-IsDict k d h.1)
    | inr other ↦
        let free : has_key j (remove k d) ≡ false = (ground (arith, has_key-remove k j d)) in
        rw other (free, remove-IsDict k d h.1)
  ]

-- `for k, v in d.items()`, where `g` writes at most one entry, under the same key.
module _ {K V W : Type 0} ⦃e : Eq K⦄ (g : K → V → Option W) where
  abbrev pub cons_some : K → Option W → List (K × W) → List (K × W)
  cons_some k none d = d
  cons_some k (some w) d = (k, w) ∷ d

  abbrev pub collect : List (K × V) → List (K × W)
  collect [] = []
  collect ((k, v) ∷ d) = cons_some k (g k v) (collect d)

  abbrev pub collected : K → Option V → Option W
  collected k none = none
  collected k (some v) = g k v

  pub has_key-collect :
      (k : K) (d : List (K × V)) → has_key k d ≡ false → has_key k (collect d) ≡ false
  has_key-collect k [] h = refl
  has_key-collect k ((j, v) ∷ d) h = ground (arith, has_key-collect k d)

  pub lookup-collect :
      (k : K) (d : List (K × V)) → IsDict d → lookup k (collect d) ≡ collected k (lookup k d)
  unfolding lookup
  lookup-collect k [] h = refl
  lookup-collect k ((j, v) ∷ d) h = ground (
    arith,
    lookup-collect k d h.1,
    lookup_absent k (collect d),
    has_key-collect j d,
    e.beq_iff j k,
  )

if_append :
    {A : Type 0} (b : Bool) (x : A) (ys : List A)
    → (if b then x ∷ [] else []) ++ ys ≡ (if b then x ∷ ys else ys)
if_append true x ys = refl
if_append false x ys = refl

-- `groups.setdefault(f(x), []).append(x)` for each `x` in turn
module _ {K A : Type 0} ⦃e : Eq K⦄ (f : A → K) where
  abbrev pub members : K → List (K × List A) → List A
  members k d = get_or [] (lookup k d)

  abbrev pub append_to : A → List (K × List A) → List (K × List A)
  append_to x d = insert (f x) (members (f x) d ++ x ∷ []) d

  unfoldable pub group_from : List (K × List A) → List A → List (K × List A)
  group_from d [] = d
  group_from d (x ∷ xs) = group_from (append_to x d) xs

  pub members-append_to :
      (k : K) (x : A) (d : List (K × List A))
      → members k (append_to x d) ≡ members k d ++ (if e.beq (f x) k then x ∷ [] else [])
  members-append_to k x d = ground (
    arith,
    lookup-insert (f x) k (members (f x) d ++ x ∷ []) d,
    e.beq_iff (f x) k,
    append-nil (members k d),
  )

  pub group_from-IsDict :
      (d : List (K × List A)) (xs : List A) → IsDict d → IsDict (group_from d xs)
  unfolding group_from
  group_from-IsDict d [] h = h
  group_from-IsDict d (x ∷ xs) h = group_from-IsDict (append_to x d) xs (insert-IsDict _ _ d h)

  -- A group holds the elements with its key, in their order.
  pub members-group_from :
      (k : K) (d : List (K × List A)) (xs : List A)
      → members k (group_from d xs) ≡ members k d ++ keep_if (λ x. e.beq (f x) k) xs
  unfolding group_from
  members-group_from k d [] = sym (append-nil _)
  members-group_from k d (x ∷ xs) =
      members-group_from k (append_to x d) xs
      ∙ ap (λ (l : List A). l ++ keep_if (λ x. e.beq (f x) k) xs) (members-append_to k x d)
      ∙ (append_assoc (members k d) _ _
          ∙ ap (λ (l : List A). members k d ++ l) (if_append (e.beq (f x) k) x _))
