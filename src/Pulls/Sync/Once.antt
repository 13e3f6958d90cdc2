-- ===== src/Pulls/Sync/Once.antt =====
-- A pull request is looked up on GitHub until its outcome is recorded, and never again.
use agent_it.Base.{
  String, Bool, true, false, not, some, List, [], ◌∷◌, ◌++◌, ◌≡◌, inl, inr, refl, sym, arith, any,
  In, In-map, In-keep_if, any-In, In-any, All, All-In, All-of_In, Bool-cases, if◌then◌else◌, str_eq,
  eq_iff,
}
use agent_it.Store.Feedback.{
  PrOutcome, PrOutcomes, is_for, is_one_of, record_pr_outcome, pr_outcomes_recorded_for,
}
use agent_it.Pulls.{PrRecord, PrRecords}
use agent_it.Pulls.Outcomes.{Github, Db, Found, compute_outcome}
use agent_it.Pulls.Sync.{
  candidates, urls_of, sync_record, sync_each, sync_pr_outcomes, row_of, of_computed, of_insert,
}
use agent_it.Pulls.Sync.Rows.{IsSync}
use agent_it.Pulls.Sync.Step.{sync_each-IsSync, side_effects-outcomes}

-- The outcome of the pull request is recorded.
abbrev pub HasRow : String → Db → Type 0
HasRow pr_url db = any (is_for pr_url) db.outcomes ≡ true

-- GitHub answers what is asked about the pull request.
abbrev pub IsAnswered : Github → PrRecord → Type 0
IsAnswered g r = (f : Found) × ((compute_outcome g r).0 ≡ some (some f))

-- A sync adds rows for candidates only, each the row that GitHub's answers give; a row that was there
-- stays as it was, and a URL keeps one row at most. It returns the rows that it added, and each of
-- them that is rejected adds one rejection of its application and of the record's category.
pub sync_pr_outcomes-IsSync :
    (g : Github) (records : PrRecords) (db : Db)
    → IsSync g (candidates records) db (sync_pr_outcomes g records db)
unfolding sync_pr_outcomes
sync_pr_outcomes-IsSync g records db =
    sync_each-IsSync g (pr_outcomes_recorded_for (urls_of (candidates records)) db.outcomes)
      (candidates records) db

any-append_left :
    (p : PrOutcome → Bool) (xs ys : PrOutcomes) → any p xs ≡ true → any p (xs ++ ys) ≡ true
any-append_left p (x ∷ xs) ys h = ground (arith, any-append_left p xs ys, h)
any-append_left p [] ys h = absurd (cc)

any-append_right :
    (p : PrOutcome → Bool) (xs ys : PrOutcomes) → any p ys ≡ true → any p (xs ++ ys) ≡ true
any-append_right p (x ∷ xs) ys h = ground (arith, any-append_right p xs ys h)
any-append_right p [] ys h = h

sync_each-keeps_row :
    (u : String) (g : Github) (already : List String) (records : PrRecords) (db : Db)
    → HasRow u db
    → HasRow u (sync_each g already records db).1
sync_each-keeps_row u g already records db h =
    let s = sync_each-IsSync g already records db in
    rw s.kept (any-append_left (is_for u) db.outcomes s.new h)

of_computed-HasRow :
    (g : Github) (r : PrRecord) (f : Found) (db : Db)
    → HasRow r.pr_url (of_computed g r (some (some f)) db).1
unfolding record_pr_outcome
of_computed-HasRow g r f db = by_known (any (is_for r.pr_url) db.outcomes) refl
  where
    rows : Bool → PrOutcomes
    rows known = if known then db.outcomes else db.outcomes ++ row_of g r f ∷ []

    by_known :
        (known : Bool)
        → any (is_for r.pr_url) db.outcomes ≡ known
        → HasRow r.pr_url (of_insert g r f (not known, rows known) db).1
    by_known true e = e
    by_known false e =
        rw (side_effects-outcomes g r (row_of g r f) (record db { outcomes = rows false })) (
          any-append_right (is_for r.pr_url) db.outcomes _
            (ground (arith, eq_iff r.pr_url r.pr_url)))

-- The URLs of `already` have rows.
abbrev AreRecorded : List String → Db → Type 0
AreRecorded already db =
    (u : String) → any (λ (v : String). str_eq u v) already ≡ true → HasRow u db

sync_record-HasRow :
    (g : Github) (already : List String) (r : PrRecord) (db : Db)
    → AreRecorded already db
    → IsAnswered g r
    → HasRow r.pr_url (sync_record g already r db).1
unfolding sync_record
sync_record-HasRow g already r db sound (f, e) =
    elim (Bool-cases (any (λ (u : String). str_eq r.pr_url u) already)) [
      | inl known ↦ rw known (sound r.pr_url known)
      | inr new ↦
          rw (new, e)
            (of_computed-HasRow g r f (record db { calls = (compute_outcome g r).1 ++ db.calls }))
    ]

sync_record-keeps_row :
    (u : String) (g : Github) (already : List String) (r : PrRecord) (db : Db)
    → HasRow u db
    → HasRow u (sync_record g already r db).1
unfolding sync_each
sync_record-keeps_row u g already r db h = sync_each-keeps_row u g already (r ∷ []) db h

sync_each-HasRow :
    (g : Github) (already : List String) (records : PrRecords) (db : Db) (r : PrRecord)
    → AreRecorded already db
    → In r records
    → IsAnswered g r
    → HasRow r.pr_url (sync_each g already records db).1
unfolding sync_each
sync_each-HasRow g already [] db r sound m h = absurd m
sync_each-HasRow g already (s ∷ records) db r sound (inl e) h =
    sync_each-keeps_row r.pr_url g already records (sync_record g already s db).1
      (rw (sym e) (sync_record-HasRow g already r db sound h))
sync_each-HasRow g already (s ∷ records) db r sound (inr m) h =
    sync_each-HasRow g already records (sync_record g already s db).1 r
      (λ u known. sync_record-keeps_row u g already s db (sound u known)) m h

recorded_for_sound :
    (u : String) (urls : List String) (rows : PrOutcomes)
    → any (λ (v : String). str_eq u v) (pr_outcomes_recorded_for urls rows) ≡ true
    → any (is_for u) rows ≡ true
unfolding pr_outcomes_recorded_for
recorded_for_sound u urls [] h = h
recorded_for_sound u urls (o ∷ rows) h =
    ground (arith, recorded_for_sound u urls rows, h, eq_iff u o.pr_url, eq_iff o.pr_url u)

-- The outcome of a candidate is recorded after a sync, where GitHub answers.
pub sync_pr_outcomes-HasRow :
    (g : Github) (records : PrRecords) (db : Db) (r : PrRecord)
    → In r (candidates records)
    → IsAnswered g r
    → HasRow r.pr_url (sync_pr_outcomes g records db).1
unfolding sync_pr_outcomes
sync_pr_outcomes-HasRow g records db r m h =
    sync_each-HasRow g (pr_outcomes_recorded_for (urls_of (candidates records)) db.outcomes)
      (candidates records) db r
      (λ u known. recorded_for_sound u (urls_of (candidates records)) db.outcomes known) m h

recorded_for_complete :
    (u : String) (urls : List String) (rows : PrOutcomes)
    → any (is_for u) rows ≡ true
    → In u urls
    → any (λ (v : String). str_eq u v) (pr_outcomes_recorded_for urls rows) ≡ true
unfolding pr_outcomes_recorded_for
recorded_for_complete u urls rows h m =
    let (o, n, e) = any-In (is_for u) rows h in
    let same = (eq_iff o.pr_url u).0 e in
    let asked = In-any (λ (v : String). str_eq o.pr_url v) u urls m e in
    In-any (λ (v : String). str_eq u v) o.pr_url _
      (In-map (λ (x : PrOutcome). x.pr_url) o _ (In-keep_if (is_one_of urls) o rows n asked))
      ((eq_iff u o.pr_url).1 (sym same))

sync_each-known :
    (g : Github) (already : List String) (records : PrRecords) (db : Db)
    → All (λ (r : PrRecord). any (λ (u : String). str_eq r.pr_url u) already ≡ true) records
    → sync_each g already records db ≡ ([], db)
unfolding sync_each sync_record
sync_each-known g already [] db h = refl
sync_each-known g already (r ∷ records) db (h, hs) =
    rw h (rw (sync_each-known g already records db hs) refl)

-- Where the outcomes of all candidates are recorded, a sync asks GitHub nothing and changes nothing,
-- whatever the answers would be.
sync_pr_outcomes-known :
    (g : Github) (records : PrRecords) (db : Db)
    → All (λ (r : PrRecord). HasRow r.pr_url db) (candidates records)
    → sync_pr_outcomes g records db ≡ ([], db)
unfolding sync_pr_outcomes
sync_pr_outcomes-known g records db h = sync_each-known g _ (candidates records) db (
    All-of_In _ (candidates records) (λ r m.
      recorded_for_complete r.pr_url (urls_of (candidates records)) db.outcomes
        (All-In _ r (candidates records) h m)
        (In-map (λ (x : PrRecord). x.pr_url) r (candidates records) m)))

-- The second of two syncs of the same records asks GitHub nothing, returns nothing and changes
-- nothing, whatever GitHub would say then, if it answered about each candidate at the first.
pub sync_pr_outcomes-again :
    (g h : Github) (records : PrRecords) (db : Db)
    → All (IsAnswered g) (candidates records)
    → sync_pr_outcomes h records (sync_pr_outcomes g records db).1
      ≡ ([], (sync_pr_outcomes g records db).1)
sync_pr_outcomes-again g h records db answered =
    sync_pr_outcomes-known h records (sync_pr_outcomes g records db).1 (
      All-of_In _ (candidates records) (λ r m.
        sync_pr_outcomes-HasRow g records db r m
          (All-In (IsAnswered g) r (candidates records) answered m)))
