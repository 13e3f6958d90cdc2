-- ===== src/Limits/Hits.antt =====
-- What the buckets of the rate limiter hold.
use agent_it.Base.{
  ℕ, ◌+◌, ◌≤◌, String, true, false, ◌||◌, not, none, some, List, [], ◌∷◌, ◌≡◌, refl, sym, ap, arith,
  ltb, leb, length, keep_if, All, lookup, insert, get_or, string_eq, Bool-cases, inl, inr,
}
use agent_it.Limits.Window.{
  Settings, State, is_old, is_exempt, limit_for_path, bucket_key, drop_old, purge_empty_buckets,
  append_hit, count_call, bucket_at, admit, check_rate_limit, purge_every,
}

-- Oldest first.
abbrev pub IsSorted : List ℕ → Type 0
IsSorted [] = Unit
IsSorted (t ∷ ts) = All (λ (u : ℕ). t ≤ u) ts × IsSorted ts

-- The hits that are not old.
abbrev pub recent : ℕ → List ℕ → List ℕ
recent now ts = keep_if (λ (t : ℕ). not (is_old now t)) ts

recent_same :
    (now t : ℕ) (ts : List ℕ)
    → is_old now t ≡ false
    → All (λ (u : ℕ). t ≤ u) ts
    → recent now ts ≡ ts
recent_same now t [] h a = refl
recent_same now t (u ∷ us) h a =
    rw (still now t u h a.0) (ap (λ (l : List ℕ). u ∷ l) (recent_same now t us h a.1))
  where
    still : (n a b : ℕ) → is_old n a ≡ false → a ≤ b → is_old n b ≡ false
    still n a b e le = ground arith

-- Popping the old hits off the left end leaves exactly the recent ones of a sorted bucket.
drop_old-recent : (now : ℕ) (ts : List ℕ) → IsSorted ts → drop_old now ts ≡ recent now ts
unfolding drop_old
drop_old-recent now [] h = refl
drop_old-recent now (t ∷ ts) h = elim (Bool-cases (is_old now t)) [
  | inl old ↦ rw old (drop_old-recent now ts h.1)
  | inr new ↦ rw new (ap (λ (l : List ℕ). t ∷ l) (sym (recent_same now t ts new h.0)))
]

admit-recent :
    (limit : ℕ) (key : String) (now : ℕ) (s : State)
    → IsSorted (get_or [] (lookup key s.hits))
    → (admit limit key now s).0 ≡ ltb (length (recent now (get_or [] (lookup key s.hits)))) limit
unfolding admit bucket_at
admit-recent limit key now s sorted =
    let ts = get_or [] (lookup key s.hits) in
    elim (Bool-cases (leb limit (length (drop_old now ts)))) [
      | inl full ↦ rw full (sym (full_answer _ (ap length (drop_old-recent now ts sorted)) full))
      | inr room ↦ rw room (sym (room_answer _ (ap length (drop_old-recent now ts sorted)) room))
    ]
  where
    full_answer : (n : ℕ) {m : ℕ} → n ≡ m → leb limit n ≡ true → ltb m limit ≡ false
    full_answer n e h = ground arith

    room_answer : (n : ℕ) {m : ℕ} → n ≡ m → leb limit n ≡ false → ltb m limit ≡ true
    room_answer n e h = ground arith

-- Where the bucket of a request is sorted, the request is let through exactly if the limiter is off,
-- its path is exempt, or fewer hits than the limit of its path lie in the last 60 seconds.
pub check_rate_limit-recent :
    (env : Settings) (client_key path : String) (now : ℕ) (s : State)
    → IsSorted (get_or [] (lookup (bucket_key client_key path) s.hits))
    → (check_rate_limit env client_key path now s).0 ≡ (
        not env.enabled
        || is_exempt path
        || ltb
            (length (recent now (get_or [] (lookup (bucket_key client_key path) s.hits))))
            (limit_for_path env path))
unfolding check_rate_limit
check_rate_limit-recent env client_key path now s sorted =
    elim (Bool-cases (not env.enabled || is_exempt path)) [
      | inl free ↦ rw free refl
      | inr limited ↦ rw limited (admit-recent _ _ now s sorted)
    ]

lookup-purge_absent :
    (key : String) (d : List (String × List ℕ))
    → lookup key d ≡ none
    → lookup key (purge_empty_buckets (insert key [] d)) ≡ none
unfolding lookup insert purge_empty_buckets
lookup-purge_absent key [] h = refl
lookup-purge_absent key ((k, ts) ∷ d) h = elim (Bool-cases (string_eq.beq k key)) [
  | inl same ↦ absurd (some-none ts (rw same at h))
  | inr other ↦ rw other (by_bucket ts (lookup-purge_absent key d (rw other at h)) other)
]
  where
    some-none : (b : List ℕ) → some b ≡ none → ⊥
    some-none b e = cc

    by_bucket :
        (us : List ℕ)
        → lookup key (purge_empty_buckets (insert key [] d)) ≡ none
        → string_eq.beq k key ≡ false
        → lookup key (purge_empty_buckets ((k, us) ∷ insert key [] d)) ≡ none
    by_bucket [] absent other = absent
    by_bucket (u ∷ us) absent other = rw other absent

-- Where the limiter is on, the path is not exempt and its limit is positive, the call that purges
-- lets a client without a bucket through, and afterwards the client still has no bucket: its hit is
-- lost.
pub check_rate_limit-forgets :
    (env : Settings) (client_key path : String) (now : ℕ) (s : State)
    → not env.enabled || is_exempt path ≡ false
    → 1 ≤ limit_for_path env path
    → lookup (bucket_key client_key path) s.hits ≡ none
    → leb purge_every (s.calls_since_purge + 1) ≡ true
    → ((check_rate_limit env client_key path now s).0 ≡ true)
      × (lookup (bucket_key client_key path) (check_rate_limit env client_key path now s).1.hits
          ≡ none)
unfolding check_rate_limit admit bucket_at drop_old count_call append_hit
check_rate_limit-forgets env client_key path now s limited positive absent purges =
    let gone = lookup-purge_absent (bucket_key client_key path) s.hits absent in
    rw (limited, absent, not_full (limit_for_path env path) positive, purges, gone) (refl, gone)
  where
    not_full : (limit : ℕ) → 1 ≤ limit → leb limit 0 ≡ false
    not_full limit h = ground arith
