-- ===== src/Pulls/Sync/Rows.antt =====
-- What a sync of the outcomes adds to the tables.
use agent_it.Base.{
  ◌+◌, String, Bool, false, ◌&&◌, List, [], ◌∷◌, ◌++◌, ◌≡◌, inl, inr, refl, sym, ap, ◌∙◌, arith,
  map, any, count_if, count_if-append, append_assoc, append-nil, map-append, All, All-append, In,
  str_eq,
}
use agent_it.Store.Feedback.{PrOutcome, PrOutcomes, is_for, get_rejection_count}
use agent_it.Pulls.{PrRecord, PrRecords}
use agent_it.Pulls.Outcomes.{Github, Db, Found}
use agent_it.Pulls.Sync.Computed.{IsFound}
use agent_it.Pulls.Sync.{Recorded, row_of}

-- Each URL has one row at most.
abbrev pub AreDistinct : PrOutcomes → Type 0
AreDistinct [] = Unit
AreDistinct (o ∷ rows) = (any (is_for o.pr_url) rows ≡ false) × AreDistinct rows

-- The row of one of the records.
abbrev pub IsRow : Github → PrRecords → PrOutcome → Type 0
IsRow g records o = (r : PrRecord) × In r records × (f : Found) × IsFound g r f × (o ≡ row_of g r f)

abbrev pub is_rejected : String → String → PrOutcome → Bool
is_rejected app category o =
    str_eq o.app_name app && str_eq o.category category && str_eq o.outcome "rejected"

abbrev pub recorded_of : PrOutcome → Recorded
recorded_of o = record {
  found = record { outcome = o.outcome; reject_reason = o.reject_reason; edit_diff = o.edit_diff };
  pr_url = o.pr_url;
  app_name = o.app_name;
}

-- The rows that are there stay; the new ones are those that are returned, each of one of the records,
-- and each rejected one counts as a rejection of its application and of the category of its record.
pub record IsSync (g : Github) (records : PrRecords) (db : Db) (m : List Recorded × Db)
    : Type 0 where
  pub new : PrOutcomes
  pub kept : m.1.outcomes ≡ db.outcomes ++ new
  pub returned : m.0 ≡ map recorded_of new
  pub of_records : All (IsRow g records) new
  pub rejections :
      (app category : String)
      → get_rejection_count app category m.1.feedback
        ≡ get_rejection_count app category db.feedback + count_if (is_rejected app category) new
  pub distinct : AreDistinct db.outcomes → AreDistinct m.1.outcomes

-- Nothing was recorded.
pub same-IsSync :
    (g : Github) (records : PrRecords) (db db' : Db)
    → db'.outcomes ≡ db.outcomes
    → db'.feedback ≡ db.feedback
    → IsSync g records db ([], db')
same-IsSync g records db db' e k = record {
  new = [];
  kept = e ∙ sym (append-nil db.outcomes);
  returned = refl;
  of_records = tt;
  rejections = λ app category. ap (get_rejection_count app category) k ∙ omega arith;
  distinct = λ h. subst-distinct h;
}
  where
    subst-distinct : AreDistinct db.outcomes → AreDistinct db'.outcomes
    subst-distinct h = rw e h

-- One after the other.
pub after-IsSync :
    (g : Github) (r : PrRecord) (records : PrRecords) (db db1 db2 : Db) (xs ys : List Recorded)
    → IsSync g (r ∷ []) db (xs, db1)
    → IsSync g records db1 (ys, db2)
    → IsSync g (r ∷ records) db (xs ++ ys, db2)
after-IsSync g r records db db1 db2 xs ys h k = record {
  new = h.new ++ k.new;
  kept = k.kept ∙ ap (λ (l : PrOutcomes). l ++ k.new) h.kept ∙ append_assoc db.outcomes h.new k.new;
  returned =
      ap (λ (l : List Recorded). l ++ ys) h.returned
      ∙ ap (λ (l : List Recorded). map recorded_of h.new ++ l) k.returned
      ∙ sym (map-append recorded_of h.new k.new);
  of_records =
      All-append (IsRow g (r ∷ records)) h.new k.new
        (All-map_of (λ o row. of_first o row) h.new h.of_records)
        (All-map_of (λ o row. of_rest o row) k.new k.of_records);
  rejections = λ app category. omega (
    arith,
    h.rejections app category,
    k.rejections app category,
    count_if-append (is_rejected app category) h.new k.new,
  );
  distinct = λ d. k.distinct (h.distinct d);
}
  where
    All-map_of :
        {P Q : PrOutcome → Type 0}
        → ((o : PrOutcome) → P o → Q o)
        → (rows : PrOutcomes) → All P rows
        → All Q rows
    All-map_of f [] h = tt
    All-map_of f (o ∷ rows) (h, hs) = (f o h, All-map_of f rows hs)

    of_first : (o : PrOutcome) → IsRow g (r ∷ []) o → IsRow g (r ∷ records) o
    of_first o (s, inl e, f, found, k) = (s, inl e, f, found, k)
    of_first o (s, inr e, f, found, k) = absurd e

    of_rest : (o : PrOutcome) → IsRow g records o → IsRow g (r ∷ records) o
    of_rest o (s, m, f, found, k) = (s, inr m, f, found, k)
