-- ===== src/Diff/Findings.antt =====
-- The new and the resolved findings of a comparison.
use agent_it.Base.{
  ℕ, ◌+◌, ◌≤◌, String, Bool, true, false, not, Option, none, some, List, [], ◌∷◌, ◌++◌, ◌≡◌, ◌↔◌,
  ◌⊎◌, inl, inr, refl, sym, ap, arith, map, In, In-of_keep_if, In-keep_if, In-append,
  In-append_left, In-append_right, if◌then◌else◌, lookup, lookup-In, string_eq, str_eq, eq_iff,
  sort_by, total, total-sort_by, Bool-cases,
}
use agent_it.Registry.Lines.{distinct}
use agent_it.Diff.{
  Finding, DimensionScore, AssessmentReport, key_of, finding_key_eq, is_key, FindingDelta, delta_of,
  Scores, by_dimension, findings_in, only_in, dimension_delta, all_new, all_resolved, dimensions,
  all_dims, diff_assessments,
}

In-map : {A B : Type 0} (f : A → B) (a : A) (xs : List A) → In a xs → In (f a) (map f xs)
In-map f a [] m = absurd m
In-map f a (x ∷ xs) (inl e) = inl (ap f e)
In-map f a (x ∷ xs) (inr m) = inr (In-map f a xs m)

In-of_map :
    {A B : Type 0} (f : A → B) (b : B) (xs : List A)
    → In b (map f xs)
    → (a : A) × In a xs × (b ≡ f a)
In-of_map f b [] m = absurd m
In-of_map f b (x ∷ xs) (inl e) = (x, inl refl, e)
In-of_map f b (x ∷ xs) (inr m) = let r = In-of_map f b xs m in (r.0, inr r.1, r.2)

-- 1 where a text stands, 0 elsewhere.
abbrev one_at : String → String → ℕ
one_at s t = if str_eq s t then 1 else 0

In-total : (s : String) (xs : List String) → In s xs → 1 ≤ total (one_at s) xs
In-total s [] m = absurd m
In-total s (x ∷ xs) (inl e) = ground (arith, (eq_iff s x).1 e)
In-total s (x ∷ xs) (inr m) = omega (arith, In-total s xs m)

total-In : (s : String) (xs : List String) → 1 ≤ total (one_at s) xs → In s xs
total-In s [] h = absurd (omega arith)
total-In s (x ∷ xs) h = elim (Bool-cases (str_eq s x)) [
  | inl same ↦ inl ((eq_iff s x).0 same)
  | inr other ↦ inr (total-In s xs (rest _ _ other h))
]
  where
    rest : (b : Bool) (n : ℕ) → b ≡ false → 1 ≤ (if b then 1 else 0) + n → 1 ≤ n
    rest b n e le = ground arith

In-sort_by : (s : String) (xs : List String) → In s xs → In s (sort_by (λ (t : String). t) xs)
In-sort_by s xs m =
    total-In s _ (rw (total-sort_by (λ (t : String). t) (one_at s) xs) (In-total s xs m))

In-distinct : (s : String) (xs : List String) → In s xs → In s (distinct xs)
In-distinct s [] m = absurd m
In-distinct s (x ∷ xs) m = elim (Bool-cases (str_eq x s)) [
  | inl same ↦ inl (sym ((eq_iff x s).0 same))
  | inr other ↦ inr (
      In-keep_if (λ (y : String). not (str_eq x y)) s (distinct xs)
        (In-distinct s xs (later m other)) (ap not other))
]
  where
    later : (s ≡ x) ⊎ In s xs → str_eq x s ≡ false → In s xs
    later (inl e) other = absurd (cc ((eq_iff x s).1 (sym e), other))
    later (inr m') other = m'

-- A finding of `fs` whose key is not among those of `others`.
abbrev pub IsOnly : String → List Finding → List Finding → FindingDelta → Type 0
IsOnly status fs others d =
    (f : Finding) × In f fs × (is_key others (key_of f) ≡ false) × (d ≡ delta_of status f)

only_in_lem :
    (status : String) (fs others : List Finding) (d : FindingDelta)
    → In d (only_in status fs others) ↔ IsOnly status fs others d
unfolding only_in
only_in_lem status fs others d = (
  λ m.
      let r = In-of_map (delta_of status) d _ m in
      let k = In-of_keep_if (λ (f : Finding). not (is_key others (key_of f))) r.0 fs r.1 in
      (r.0, k.0, not-true _ k.1, r.2),
  λ (f, m, e, same). rw same (
      In-map (delta_of status) f _
        (In-keep_if (λ (g : Finding). not (is_key others (key_of g))) f fs m (ap not e))),
)
  where
    not-true : (b : Bool) → not b ≡ true → b ≡ false
    not-true b h = ground arith

-- The same in one of the dimensions of two reports.
abbrev pub IsMoved : String → Scores → Scores → FindingDelta → Type 0
IsMoved status here there d =
    (dim : String) × IsOnly status (findings_in (lookup dim here)) (findings_in (lookup dim there))
      d

module _ (olds news : Scores) where
  all_new-In :
      (d : FindingDelta) (dims : List String)
      → In d (all_new (map (dimension_delta olds news) dims))
      → IsMoved "new" news olds d
  unfolding dimension_delta
  all_new-In d [] m = absurd m
  all_new-In d (dim ∷ dims) m = elim (In-append d _ _ m) [
    | inl here ↦ (dim, (only_in_lem "new" _ _ d).0 here)
    | inr there ↦ all_new-In d dims there
  ]

  all_resolved-In :
      (d : FindingDelta) (dims : List String)
      → In d (all_resolved (map (dimension_delta olds news) dims))
      → IsMoved "resolved" olds news d
  unfolding dimension_delta
  all_resolved-In d [] m = absurd m
  all_resolved-In d (dim ∷ dims) m = elim (In-append d _ _ m) [
    | inl here ↦ (dim, (only_in_lem "resolved" _ _ d).0 here)
    | inr there ↦ all_resolved-In d dims there
  ]

  In-all_new :
      (d : FindingDelta) (dim : String) (dims : List String)
      → In dim dims
      → In d (only_in "new" (findings_in (lookup dim news)) (findings_in (lookup dim olds)))
      → In d (all_new (map (dimension_delta olds news) dims))
  unfolding dimension_delta
  In-all_new d dim [] m h = absurd m
  In-all_new d dim (e ∷ dims) (inl same) h = In-append_left d _ _ (rw same at h)
  In-all_new d dim (e ∷ dims) (inr m) h = In-append_right d _ _ (In-all_new d dim dims m h)

  In-all_resolved :
      (d : FindingDelta) (dim : String) (dims : List String)
      → In dim dims
      → In d (only_in "resolved" (findings_in (lookup dim olds)) (findings_in (lookup dim news)))
      → In d (all_resolved (map (dimension_delta olds news) dims))
  unfolding dimension_delta
  In-all_resolved d dim [] m h = absurd m
  In-all_resolved d dim (e ∷ dims) (inl same) h = In-append_left d _ _ (rw same at h)
  In-all_resolved d dim (e ∷ dims) (inr m) h =
      In-append_right d _ _ (In-all_resolved d dim dims m h)

  -- A dimension with findings is one of the dimensions of its report.
  In-dimensions :
      (dim : String) (f : Finding) (d : Scores)
      → In f (findings_in (lookup dim d))
      → In dim (dimensions d)
  In-dimensions dim f d m = by_score (lookup dim d) refl m
    where
      by_score :
          (o : Option DimensionScore)
          → lookup dim d ≡ o
          → In f (findings_in o)
          → In dim (dimensions d)
      by_score none e m' = absurd m'
      by_score (some s) e m' =
          In-map (λ (x : String × DimensionScore). x.0) (dim, s) d (lookup-In dim s d e)

  In-all_dims :
      (dim : String)
      → In dim (dimensions olds) ⊎ In dim (dimensions news)
      → In dim (all_dims olds news)
  unfolding all_dims
  In-all_dims dim m = In-sort_by dim _ (In-distinct dim _ (either m))
    where
      either :
          In dim (dimensions olds) ⊎ In dim (dimensions news)
          → In dim (dimensions olds ++ dimensions news)
      either (inl l) = In-append_left dim _ _ l
      either (inr r) = In-append_right dim _ _ r

-- A comparison lists as new exactly the findings of a dimension of the new report whose key no finding
-- of the same dimension of the old report has, and as resolved exactly those of the old report
-- whose key no finding of the same dimension of the new one has.
pub diff_assessments-IsMoved :
    (old new : AssessmentReport) (d : FindingDelta)
    → (In d (diff_assessments old new).new_findings
        ↔ IsMoved "new" (by_dimension new) (by_dimension old) d)
      × (In d (diff_assessments old new).resolved_findings
          ↔ IsMoved "resolved" (by_dimension old) (by_dimension new) d)
unfolding diff_assessments
diff_assessments-IsMoved old new d =
    let olds = by_dimension old in
    let news = by_dimension new in
    (
      (
        all_new-In olds news d (all_dims olds news),
        λ (dim, (f, m, gone, e)).
            In-all_new olds news d dim _
              (In-all_dims olds news dim (inr (In-dimensions olds news dim f news m)))
              ((only_in_lem "new" _ _ d).1 (f, m, gone, e)),
      ),
      (
        all_resolved-In olds news d (all_dims olds news),
        λ (dim, (f, m, gone, e)).
            In-all_resolved olds news d dim _
              (In-all_dims olds news dim (inl (In-dimensions olds news dim f olds m)))
              ((only_in_lem "resolved" _ _ d).1 (f, m, gone, e)),
      ),
    )
