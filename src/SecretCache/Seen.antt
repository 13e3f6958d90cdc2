-- ===== src/SecretCache/Seen.antt =====
-- What a cache that starts empty holds for one key.
use agent_it.Base.{
  ℕ, ◌+◌, Bool, true, false, Option, none, some, List, [], ◌∷◌, ◌≡◌, inl, inr, refl, sym, ap, ◌∙◌,
  lookup, lookup-insert, lookup-remove, string_eq, if◌then◌else◌, keep_if, any, ◌||◌, length, arith,
  Bool-cases,
}
use agent_it.SecretCache.{
  Key, key_eq, Classification, Row, Rows, lookup_row, touched, touch, next_hit_count, upsert,
  delete, Call, touching, deleting, upserting, call, run,
}

abbrev is_about : Key → Call → Bool
is_about key (touching k) = key_eq.beq k key
is_about key (deleting k) = key_eq.beq k key
is_about key (upserting k c) = key_eq.beq k key

abbrev is_deleting : Call → Bool
is_deleting (deleting k) = true
is_deleting _ = false

-- The calls behind the last deletion, all of them where there is none.
abbrev since_deleted : List Call → List Call
since_deleted [] = []
since_deleted (c ∷ calls) =
    if any is_deleting calls
    then since_deleted calls
    else if is_deleting c
    then calls
    else c ∷ calls

abbrev last_upserted : Classification → List Call → Classification
last_upserted c [] = c
last_upserted c (upserting k d ∷ calls) = last_upserted d calls
last_upserted c (_ ∷ calls) = last_upserted c calls

-- From the first upsert on: the last classification, and the number of the calls.
abbrev counted : List Call → Option Row
counted [] = none
counted (upserting k c ∷ calls) = some (last_upserted c calls, length calls + 1)
counted (_ ∷ calls) = counted calls

abbrev own : Key → List Call → List Call
own key calls = keep_if (is_about key) calls

abbrev pub seen : Key → List Call → Option Row
seen key calls = counted (since_deleted (own key calls))

-- The row of one key after one call.
abbrev seen_one : Key → Call → Option Row → Option Row
seen_one key (touching k) none = none
seen_one key (touching k) (some (c, n)) = if key_eq.beq k key then some (c, n + 1) else some (c, n)
seen_one key (deleting k) o = if key_eq.beq k key then none else o
seen_one key (upserting k c) o = if key_eq.beq k key then some (c, next_hit_count o) else o

abbrev folded : Key → List Call → Option Row → Option Row
folded key [] o = o
folded key (c ∷ calls) o = folded key calls (seen_one key c o)

seen_one-other :
    (key k : Key) (o : Option Row) → key_eq.beq k key ≡ false → seen_one key (touching k) o ≡ o
seen_one-other key k none h = refl
seen_one-other key k (some (c, n)) h = rw h refl

at_key :
    (key k : Key) (rows : Rows) (o : Option Row)
    → key_eq.beq k key ≡ true
    → lookup k rows ≡ o
    → lookup key rows ≡ o
at_key key k rows o same e =
    ap (λ (j : Key). lookup j rows) (sym ((key_eq.beq_iff k key).0 same)) ∙ e

touched-seen :
    (key k : Key) (rows : Rows) (o : Option Row)
    → lookup k rows ≡ o
    → lookup key (touched o k rows) ≡ seen_one key (touching k) (lookup key rows)
touched-seen key k rows none e = elim (Bool-cases (key_eq.beq k key)) [
  | inl same ↦ rw (at_key key k rows none same e) refl
  | inr other ↦ sym (seen_one-other key k (lookup key rows) other)
]
touched-seen key k rows (some (c, n)) e = elim (Bool-cases (key_eq.beq k key)) [
  | inl same ↦
      rw (lookup-insert k key (c, n + 1) rows, same, at_key key k rows (some (c, n)) same e, same)
        refl
  | inr other ↦
      rw (lookup-insert k key (c, n + 1) rows, other)
        (sym (seen_one-other key k (lookup key rows) other))
]

call-seen :
    (key : Key) (c : Call) (rows : Rows)
    → lookup key (call c rows) ≡ seen_one key c (lookup key rows)
unfolding call touch upsert delete
call-seen key (touching k) rows = touched-seen key k rows (lookup k rows) refl
call-seen key (deleting k) rows = lookup-remove k key rows
call-seen key (upserting k c) rows = elim (Bool-cases (key_eq.beq k key)) [
  | inl same ↦
      rw (lookup-insert k key (c, next_hit_count (lookup k rows)) rows, same)
        (ap (λ (j : Key). some (c, next_hit_count (lookup j rows))) ((key_eq.beq_iff k key).0 same))
  | inr other ↦ rw (lookup-insert k key (c, next_hit_count (lookup k rows)) rows, other) refl
]

lookup-run :
    (key : Key) (calls : List Call) (rows : Rows)
    → lookup key (run calls rows) ≡ folded key calls (lookup key rows)
unfolding run
lookup-run key [] rows = refl
lookup-run key (c ∷ calls) rows =
    lookup-run key calls (call c rows)
    ∙ ap (λ (o : Option Row). folded key calls o) (call-seen key c rows)

-- What calls without a deletion make of a row.
abbrev grown : Option Row → List Call → Option Row
grown none calls = counted calls
grown (some (c, n)) calls = some (last_upserted c calls, n + length calls)

seen_one-unrelated :
    (key : Key) (c : Call) (o : Option Row) → is_about key c ≡ false → seen_one key c o ≡ o
seen_one-unrelated key (touching k) o h = seen_one-other key k o h
seen_one-unrelated key (deleting k) o h = rw h refl
seen_one-unrelated key (upserting k c) o h = rw h refl

grown-step :
    (key : Key) (c : Call) (o : Option Row) (calls : List Call)
    → is_about key c ≡ true
    → is_deleting c ≡ false
    → grown (seen_one key c o) calls ≡ grown o (c ∷ calls)
grown-step key (touching k) none calls h kept = refl
grown-step key (touching k) (some (c, n)) calls h kept =
    rw h (ap (λ (i : ℕ). some (last_upserted c calls, i)) (omega arith))
grown-step key (deleting k) o calls h kept = absurd (cc)
grown-step key (upserting k c) none calls h kept =
    rw h (ap (λ (i : ℕ). some (last_upserted c calls, i)) (omega arith))
grown-step key (upserting k c) (some (d, n)) calls h kept =
    rw h (ap (λ (i : ℕ). some (last_upserted c calls, i)) (omega arith))

no_deleting :
    (c : Call) (calls : List Call)
    → any is_deleting (c ∷ calls) ≡ false
    → (is_deleting c ≡ false) × (any is_deleting calls ≡ false)
no_deleting c calls h = parts (is_deleting c) (any is_deleting calls) h
  where
    parts : (a b : Bool) → (a || b) ≡ false → (a ≡ false) × (b ≡ false)
    parts a b e = ground arith

folded-grown :
    (key : Key) (calls : List Call) (o : Option Row)
    → any is_deleting (own key calls) ≡ false
    → folded key calls o ≡ grown o (own key calls)
folded-grown key [] none h = refl
folded-grown key [] (some (c, n)) h = ap (λ (i : ℕ). some (c, i)) (omega arith)
folded-grown key (c ∷ calls) o h = elim (Bool-cases (is_about key c)) [
  | inl its ↦
      let (kept, rest) = no_deleting c (own key calls) (rw its at h) in
      rw its (
        folded-grown key calls (seen_one key c o) rest
        ∙ grown-step key c o (own key calls) its kept)
  | inr foreign ↦
      rw (foreign, seen_one-unrelated key c o foreign) (folded-grown key calls o (rw foreign at h))
]

deleted-none :
    (key : Key) (c : Call) (o : Option Row)
    → is_about key c ≡ true
    → is_deleting c ≡ true
    → seen_one key c o ≡ none
deleted-none key (touching k) o its gone = absurd (cc)
deleted-none key (deleting k) o its gone = rw its refl
deleted-none key (upserting k c) o its gone = absurd (cc)

-- Where the key was deleted, what it held before is forgotten.
folded-deleted :
    (key : Key) (calls : List Call) (o : Option Row)
    → any is_deleting (own key calls) ≡ true
    → folded key calls o ≡ seen key calls
folded-deleted key [] o h = absurd (cc)
folded-deleted key (c ∷ calls) o h = elim (Bool-cases (is_about key c)) [
  | inl its ↦ elim (Bool-cases (any is_deleting (own key calls))) [
    | inl later ↦ rw (its, later) (folded-deleted key calls (seen_one key c o) later)
    | inr last ↦
        let gone : is_deleting c ≡ true = this_one (is_deleting c) last (rw its at h) in
        rw (its, last, gone, deleted-none key c o its gone) (folded-grown key calls none last)
  ]
  | inr foreign ↦
      rw (foreign, seen_one-unrelated key c o foreign)
        (folded-deleted key calls o (rw foreign at h))
]
  where
    this_one :
        (b : Bool)
        → any is_deleting (own key calls) ≡ false
        → (b || any is_deleting (own key calls)) ≡ true
        → b ≡ true
    this_one true e g = refl
    this_one false e g = absurd (cc)

since_deleted-all :
    (calls : List Call) → any is_deleting calls ≡ false → since_deleted calls ≡ calls
since_deleted-all [] h = refl
since_deleted-all (c ∷ calls) h = let (kept, rest) = no_deleting c calls h in rw (rest, kept) refl

-- After any calls on an empty cache, a lookup of a key finds nothing where the key was not upserted
-- since its last deletion. Otherwise it finds the key's last classification, and as hit count the
-- number of the upserts and touches of the key from its first upsert since that deletion on.
pub lookup_row-seen :
    (key : Key) (calls : List Call) → lookup_row key (run calls []) ≡ seen key calls
unfolding lookup_row lookup
lookup_row-seen key calls = lookup-run key calls [] ∙ of_empty
  where
    of_empty : folded key calls none ≡ seen key calls
    of_empty = elim (Bool-cases (any is_deleting (own key calls))) [
      | inl deleted ↦ folded-deleted key calls none deleted
      | inr kept ↦
          folded-grown key calls none kept
          ∙ ap counted (sym (since_deleted-all (own key calls) kept))
    ]
