-- ===== src/Pulls/Sync/Step.antt =====
-- Each record of a sync adds one row at most.
use agent_it.Base.{
  ℕ, ◌+◌, String, Bool, true, false, ◌&&◌, not, Option, none, some, List, [], ◌∷◌, ◌++◌, ◌≡◌, inl,
  inr, refl, sym, ap, ◌∙◌, arith, any, length, count_if, count_if-append, Bool-cases, if◌then◌else◌,
  str_eq, eq_iff,
}
use agent_it.Store.Feedback.{
  PrOutcome, PrOutcomes, Feedbacks, is_for, is_rejection, record_feedback, record_pr_outcome,
  get_rejection_count,
}
use agent_it.Pulls.{PrRecord, PrRecords}
use agent_it.Pulls.Outcomes.{Github, Db, Found, compute_outcome}
use agent_it.Pulls.Sync.Computed.{IsFound, IsComputed, compute_outcome-IsComputed}
use agent_it.Pulls.Sync.{
  Recorded, sync_record, sync_each, row_of, of_computed, of_insert, side_effects, with_recorded,
  record_rejection_side_effects,
}
use agent_it.Pulls.Sync.Rows.{
  AreDistinct, is_rejected, recorded_of, IsSync, same-IsSync, after-IsSync,
}

any_append :
    (u : String) (rows : PrOutcomes) (o : PrOutcome)
    → any (is_for u) rows ≡ false
    → str_eq o.pr_url u ≡ false
    → any (is_for u) (rows ++ o ∷ []) ≡ false
any_append u [] o h k = rw k refl
any_append u (p ∷ rows) o h k = ground (arith, any_append u rows o, h, k)

distinct_append :
    (rows : PrOutcomes) (o : PrOutcome)
    → any (is_for o.pr_url) rows ≡ false
    → AreDistinct rows
    → AreDistinct (rows ++ o ∷ [])
distinct_append [] o h d = (refl, tt)
distinct_append (p ∷ rows) o h (k, d) = (
  any_append p.pr_url rows o k
      (ground (arith, h, eq_iff p.pr_url o.pr_url, eq_iff o.pr_url p.pr_url)),
  distinct_append rows o (ground (arith, h)) d,
)

-- The row of a pull request that has none.
added-IsSync :
    (g : Github) (r : PrRecord) (f : Found) (db db' : Db)
    → IsFound g r f
    → any (is_for r.pr_url) db.outcomes ≡ false
    → db'.outcomes ≡ db.outcomes ++ row_of g r f ∷ []
    → ((app category : String)
        → get_rejection_count app category db'.feedback
          ≡ get_rejection_count app category db.feedback
            + count_if (is_rejected app category) (row_of g r f ∷ []))
    → IsSync g (r ∷ []) db (recorded_of (row_of g r f) ∷ [], db')
added-IsSync g r f db db' found absent e count = record {
  new = row_of g r f ∷ [];
  kept = e;
  returned = refl;
  of_records = ((r, inl refl, f, found, refl), tt);
  rejections = count;
  distinct = λ d. rw e (distinct_append db.outcomes (row_of g r f) absent d);
}

-- A rejection is counted, and nothing else.
side_effects-count :
    (g : Github) (r : PrRecord) (f : Found) (db : Db) (app category : String)
    → get_rejection_count app category (side_effects g r (row_of g r f) db).feedback
      ≡ get_rejection_count app category db.feedback
        + count_if (is_rejected app category) (row_of g r f ∷ [])
unfolding get_rejection_count record_rejection_side_effects record_feedback
side_effects-count g r f db app category = elim (Bool-cases (str_eq f.outcome "rejected")) [
  | inl e ↦ rw e (
      count_if-append (is_rejection app category) db.feedback _
      ∙ ap (λ (n : ℕ). count_if (is_rejection app category) db.feedback + n)
          (length-one (str_eq r.app_name app && str_eq r.category category && true) _ _))
  | inr e ↦ rw e (
      sym (
        ap (λ (n : ℕ). count_if (is_rejection app category) db.feedback + n)
          (length-none (str_eq r.app_name app) (str_eq r.category category) (row_of g r f))
        ∙ omega arith))
]
  where
    length-one :
        {A B : Type 0} (b : Bool) (x : A) (y : B)
        → length (if b then x ∷ [] else []) ≡ length (if b then y ∷ [] else [])
    length-one true x y = refl
    length-one false x y = refl

    length-none :
        {A : Type 0} (a b : Bool) (x : A) → length (if a && b && false then x ∷ [] else []) ≡ 0
    length-none true true x = refl
    length-none true false x = refl
    length-none false b x = refl

pub side_effects-outcomes :
    (g : Github) (r : PrRecord) (o : PrOutcome) (db : Db)
    → (side_effects g r o db).outcomes ≡ db.outcomes
unfolding record_rejection_side_effects
side_effects-outcomes g r o db = elim (Bool-cases (str_eq o.outcome "rejected")) [
  | inl e ↦ rw e refl
  | inr e ↦ rw e refl
]

computed-IsSync :
    (g : Github) (r : PrRecord) (c : Option (Option Found)) (db db' : Db)
    → IsComputed g r c
    → db'.outcomes ≡ db.outcomes
    → db'.feedback ≡ db.feedback
    → let m = of_computed g r c db' in IsSync g (r ∷ []) db (with_recorded m.0 [], m.1)
unfolding record_pr_outcome IsComputed
computed-IsSync g r none db db' h e k = same-IsSync g (r ∷ []) db db' e k
computed-IsSync g r (some none) db db' h e k = same-IsSync g (r ∷ []) db db' e k
computed-IsSync g r (some (some f)) db db' h e k =
    by_known (any (is_for r.pr_url) db'.outcomes) refl
  where
    inserted : Bool → Bool × PrOutcomes
    inserted known = (not known, if known then db'.outcomes else db'.outcomes ++ row_of g r f ∷ [])

    by_known :
        (known : Bool)
        → any (is_for r.pr_url) db'.outcomes ≡ known
        → let m = of_insert g r f (inserted known) db' in
          IsSync g (r ∷ []) db (with_recorded m.0 [], m.1)
    by_known true known = same-IsSync g (r ∷ []) db (record db' { outcomes = db'.outcomes }) e k
    by_known false known =
        let db2 = record db' { outcomes = db'.outcomes ++ row_of g r f ∷ [] } in
        added-IsSync g r f db (side_effects g r (row_of g r f) db2) h
          (ap (λ (rows : PrOutcomes). any (is_for r.pr_url) rows) (sym e) ∙ known)
          (side_effects-outcomes g r (row_of g r f) db2
            ∙ ap (λ (rows : PrOutcomes). rows ++ row_of g r f ∷ []) e)
          (λ app category.
            side_effects-count g r f db2 app category
            ∙ ap
                (λ (rows : Feedbacks).
                  get_rejection_count app category rows
                  + count_if (is_rejected app category) (row_of g r f ∷ []))
                k)

sync_record-IsSync :
    (g : Github) (already : List String) (r : PrRecord) (db : Db)
    → let m = sync_record g already r db in IsSync g (r ∷ []) db (with_recorded m.0 [], m.1)
unfolding sync_record
sync_record-IsSync g already r db = by_known (any (λ (u : String). str_eq r.pr_url u) already)
  where
    by_known :
        (known : Bool)
        → let m =
            if known
            then (none, db)
            else (let (computed, made) = compute_outcome g r in
                of_computed g r computed (record db { calls = made ++ db.calls })) in
          IsSync g (r ∷ []) db (with_recorded m.0 [], m.1)
    by_known true = same-IsSync g (r ∷ []) db db refl refl
    by_known false =
        computed-IsSync g r (compute_outcome g r).0 db
          (record db { calls = (compute_outcome g r).1 ++ db.calls })
          (compute_outcome-IsComputed g r) refl refl

with_recorded-append :
    (o : Option Recorded) (rs : List Recorded) → with_recorded o rs ≡ with_recorded o [] ++ rs
with_recorded-append none rs = refl
with_recorded-append (some r) rs = refl

pub sync_each-IsSync :
    (g : Github) (already : List String) (records : PrRecords) (db : Db)
    → IsSync g records db (sync_each g already records db)
unfolding sync_each
sync_each-IsSync g already [] db = same-IsSync g [] db db refl refl
sync_each-IsSync g already (r ∷ records) db =
    let m = sync_record g already r db in
    rw (with_recorded-append m.0 (sync_each g already records m.1).0) (
      after-IsSync g r records db m.1 (sync_each g already records m.1).1 (with_recorded m.0 [])
        (sync_each g already records m.1).0 (sync_record-IsSync g already r db)
        (sync_each-IsSync g already records m.1))
