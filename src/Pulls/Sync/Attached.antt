-- ===== src/Pulls/Sync/Attached.antt =====
-- What a sync shows of the outcomes, and what it counts.
use agent_it.Base.{
  String, Bool, true, false, ◌&&◌, not, Option, none, List, [], ◌∷◌, ◌≡◌, inl, inr, refl, sym, ap,
  ◌∙◌, arith, map, any, keep_if, count_if, first_that, In, In-map, In-any, In-keep_if, All, All-In,
  Bool-cases, if◌then◌else◌, str_eq, eq_iff, is_empty_text, lookup, insert, lookup-insert,
  string_eq,
}
use agent_it.Store.Feedback.{
  PrOutcome, PrOutcomes, is_for, is_one_of, get_pr_outcome, get_pr_outcomes_for_urls, by_url,
  get_rejection_count,
}
use agent_it.Pulls.{PrRecord, PrRecords}
use agent_it.Pulls.Outcomes.{Github, Db}
use agent_it.Pulls.Sync.{attached, attach_pr_outcomes, sync_pr_outcomes, candidates, urls_of}
use agent_it.Pulls.Sync.Rows.{AreDistinct, IsRow, is_rejected}
use agent_it.Pulls.Sync.Once.{sync_pr_outcomes-IsSync}

lookup-by_url :
    (u : String) (rows : PrOutcomes) (acc : List (String × PrOutcome))
    → AreDistinct rows
    → lookup u (by_url rows acc)
      ≡ (if any (is_for u) rows then first_that (is_for u) rows else lookup u acc)
lookup-by_url u [] acc d = refl
lookup-by_url u (o ∷ rows) acc (absent, d) = elim (Bool-cases (str_eq o.pr_url u)) [
  | inl e ↦
      rw
        (
          lookup-by_url u rows (insert o.pr_url o acc) d,
          lookup-insert o.pr_url u o acc,
          e,
          ap (λ (v : String). any (is_for v) rows) (sym ((eq_iff o.pr_url u).0 e)) ∙ absent,
        )
        refl
  | inr e ↦
      rw (lookup-by_url u rows (insert o.pr_url o acc) d, lookup-insert o.pr_url u o acc, e) refl
]

keep_if-AreDistinct :
    (p : PrOutcome → Bool) (rows : PrOutcomes) → AreDistinct rows → AreDistinct (keep_if p rows)
keep_if-AreDistinct p [] d = tt
keep_if-AreDistinct p (o ∷ rows) (absent, d) = of_test (p o) (keep_if-AreDistinct p rows d)
  where
    none-kept :
        (q : PrOutcome → Bool) (os : PrOutcomes) → any q os ≡ false → any q (keep_if p os) ≡ false
    none-kept q [] h = refl
    none-kept q (o ∷ os) h = ground (arith, none-kept q os, h)

    of_test :
        (b : Bool)
        → AreDistinct (keep_if p rows)
        → AreDistinct (if b then o ∷ keep_if p rows else keep_if p rows)
    of_test true k = (none-kept (is_for o.pr_url) rows absent, k)
    of_test false k = k

asked :
    (u : String) (urls : List String) (rows : PrOutcomes)
    → any (λ (v : String). str_eq u v) urls ≡ true
    → (if any (is_for u) (keep_if (is_one_of urls) rows)
        then first_that (is_for u) (keep_if (is_one_of urls) rows)
        else none)
      ≡ first_that (is_for u) rows
asked u urls [] h = refl
asked u urls (o ∷ rows) h = elim (Bool-cases (str_eq o.pr_url u)) [
  | inl e ↦
      rw
        (
          ap (λ (v : String). any (λ (w : String). str_eq v w) urls) ((eq_iff o.pr_url u).0 e) ∙ h,
          e,
        )
        refl
  | inr e ↦ elim (Bool-cases (is_one_of urls o)) [
    | inl k ↦ rw (k, e) (asked u urls rows h)
    | inr k ↦ rw (k, e) (asked u urls rows h)
  ]
]

-- The outcome that the table has for the URL of a record.
abbrev pub recorded_outcome : PrOutcomes → PrRecord → Option PrOutcome
recorded_outcome rows r = if is_empty_text r.pr_url then none else get_pr_outcome r.pr_url rows

abbrev has_url : PrRecord → Bool
has_url r = not (is_empty_text r.pr_url)

-- Texts that a test tells apart.
differ : (f : String → Bool) (a b : String) → f a ≡ true → f b ≡ false → str_eq a b ≡ false
differ f a b h k = elim (Bool-cases (str_eq a b)) [
  | inl e ↦ absurd (cc (sym h ∙ ap f ((eq_iff a b).0 e) ∙ k))
  | inr e ↦ e
]

not_asked :
    (u : String) (records : PrRecords)
    → is_empty_text u ≡ true
    → any (λ (v : String). str_eq u v) (urls_of (keep_if has_url records)) ≡ false
not_asked u [] h = refl
not_asked u (s ∷ records) h = elim (Bool-cases (is_empty_text s.pr_url)) [
  | inl e ↦ rw e (not_asked u records h)
  | inr e ↦ rw (e, differ is_empty_text u s.pr_url h e) (not_asked u records h)
]

unasked :
    (u : String) (urls : List String) (rows : PrOutcomes)
    → any (λ (v : String). str_eq u v) urls ≡ false
    → any (is_for u) (keep_if (is_one_of urls) rows) ≡ false
unasked u urls [] h = refl
unasked u urls (o ∷ rows) h = elim (Bool-cases (is_one_of urls o)) [
  | inr k ↦ rw k (unasked u urls rows h)
  | inl k ↦
      rw (k, differ (λ (v : String). any (λ (w : String). str_eq v w) urls) o.pr_url u k h)
        (unasked u urls rows h)
]

lookup_asked :
    (records : PrRecords) (rows : PrOutcomes) (r : PrRecord)
    → AreDistinct rows
    → In r records
    → lookup r.pr_url (get_pr_outcomes_for_urls (urls_of (keep_if has_url records)) rows)
      ≡ recorded_outcome rows r
unfolding get_pr_outcomes_for_urls get_pr_outcome lookup
lookup_asked records rows r d m =
    let urls = urls_of (keep_if has_url records) in
    lookup-by_url r.pr_url (keep_if (is_one_of urls) rows) [] (keep_if-AreDistinct _ rows d)
    ∙ elim (Bool-cases (is_empty_text r.pr_url)) [
      | inl e ↦ rw (e, unasked r.pr_url urls rows (not_asked r.pr_url records e)) refl
      | inr e ↦ rw e (
          asked r.pr_url urls rows (
            In-any (λ (v : String). str_eq r.pr_url v) r.pr_url urls
              (In-map (λ (s : PrRecord). s.pr_url) r _ (In-keep_if has_url r records m (rw e refl)))
              ((eq_iff r.pr_url r.pr_url).1 refl)))
    ]

map-In :
    (f g : PrRecord → PrRecord) (records : PrRecords)
    → ((r : PrRecord) → In r records → f r ≡ g r)
    → map f records ≡ map g records
map-In f g [] h = refl
map-In f g (r ∷ records) h = rw (h r (inl refl), map-In f g records (λ s m. h s (inr m))) refl

-- Where each URL has one row at most, the one query for all records attaches to each record what
-- its own lookup would find.
pub attach_pr_outcomes-recorded :
    (rows : PrOutcomes) (records : PrRecords)
    → AreDistinct rows
    → attach_pr_outcomes rows records
      ≡ map (λ (r : PrRecord). attached r (recorded_outcome rows r)) records
unfolding attach_pr_outcomes
attach_pr_outcomes-recorded rows records d =
    map-In _ _ records (λ r m. ap (attached r) (lookup_asked records rows r d m))

none-rejected :
    (g : Github) (app category : String) (records : PrRecords) (new : PrOutcomes)
    → All (λ (r : PrRecord). (str_eq r.app_name app && str_eq r.category category) ≡ false) records
    → All (IsRow g records) new
    → count_if (is_rejected app category) new ≡ 0
none-rejected g app category records [] h k = refl
none-rejected g app category records (o ∷ new) h ((r, m, f, found, e), ks) =
    let other = All-In _ r records h m in
    rw
      (ap (is_rejected app category) e
        ∙ both (str_eq r.app_name app) (str_eq r.category category) (str_eq f.outcome "rejected")
            other)
      (none-rejected g app category records new h ks)
  where
    both : (a b c : Bool) → (a && b) ≡ false → (a && b && c) ≡ false
    both a b c k = ground arith

-- A rejection counts for the application and the category of its record alone: where no merged or
-- closed record has both, a sync leaves the count of rejections as it was.
pub sync_pr_outcomes-uncounted :
    (g : Github) (records : PrRecords) (db : Db) (app category : String)
    → All
        (λ (r : PrRecord). (str_eq r.app_name app && str_eq r.category category) ≡ false)
        (candidates records)
    → get_rejection_count app category (sync_pr_outcomes g records db).1.feedback
      ≡ get_rejection_count app category db.feedback
sync_pr_outcomes-uncounted g records db app category h =
    let s = sync_pr_outcomes-IsSync g records db in
    omega (
      arith,
      s.rejections app category,
      none-rejected g app category (candidates records) s.new h s.of_records,
    )
