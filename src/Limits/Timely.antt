-- ===== src/Limits/Timely.antt =====
-- The buckets of the rate limiter stay sorted, in the past, and within the limits.
use agent_it.Base.{
  ℕ, ◌+◌, ◌≤◌, ◌<◌, String, false, ◌||◌, not, Option, none, some, List, [], ◌∷◌, ◌++◌, ◌≡◌, refl,
  sym, ap, subst, arith, leb, length, length-append, In, In-of_keep_if, All, if◌then◌else◌, lookup,
  insert, lookup-In, get_or, is_some, string_eq, Bool-cases, inl, inr, ◌⊎◌, is_empty,
}
use agent_it.Limits.Window.{
  Settings, State, is_old, is_exempt, limit_for_path, drop_old, purge_empty_buckets, append_hit,
  count_call, bucket_at, admit, check_rate_limit, purge_every,
}
use agent_it.Limits.Hits.{IsSorted}

-- The larger of the two limits.
abbrev pub bound : Settings → ℕ
bound env = if leb env.webhook_limit env.default_limit then env.default_limit else env.webhook_limit

limit_for_path-le : (env : Settings) (path : String) → limit_for_path env path ≤ bound env
limit_for_path-le env path = ground arith

-- A bucket at the time `now`.
abbrev pub IsBucket : ℕ → ℕ → List ℕ → Type 0
IsBucket most now ts = IsSorted ts × All (λ (t : ℕ). t ≤ now) ts × (length ts ≤ most)

-- All buckets of the limiter.
pub record IsTimely (most now : ℕ) (s : State) : Type 0 where
  pub bucket : (k : String) (ts : List ℕ) → In (k, ts) s.hits → IsBucket most now ts

All-le : (a b : ℕ) (ts : List ℕ) → a ≤ b → All (λ (t : ℕ). t ≤ a) ts → All (λ (t : ℕ). t ≤ b) ts
All-le a b [] le h = tt
All-le a b (t ∷ ts) le (h, hs) = (omega arith, All-le a b ts le hs)

module _ (most before now : ℕ) (later : before ≤ now) where
  IsBucket-mono : (ts : List ℕ) → IsBucket most before ts → IsBucket most now ts
  IsBucket-mono ts (sorted, past, few) = (sorted, All-le before now ts later past, few)

  IsBucket-drop_old : (ts : List ℕ) → IsBucket most before ts → IsBucket most now (drop_old now ts)
  unfolding drop_old
  IsBucket-drop_old [] h = (tt, tt, h.2)
  IsBucket-drop_old (t ∷ ts) h = elim (Bool-cases (is_old now t)) [
    | inl old ↦ rw old (IsBucket-drop_old ts (h.0.1, h.1.1, omega (arith, h.2)))
    | inr new ↦ rw new (IsBucket-mono (t ∷ ts) h)
  ]

IsSorted-append :
    (now : ℕ) (ts : List ℕ)
    → IsSorted ts
    → All (λ (t : ℕ). t ≤ now) ts
    → IsSorted (ts ++ (now ∷ []))
IsSorted-append now [] h past = (tt, tt)
IsSorted-append now (t ∷ ts) (least, sorted) (le, past) =
    (All-append ts least, IsSorted-append now ts sorted past)
  where
    All-append :
        (us : List ℕ) → All (λ (u : ℕ). t ≤ u) us → All (λ (u : ℕ). t ≤ u) (us ++ (now ∷ []))
    All-append [] h = (le, tt)
    All-append (u ∷ us) (h, hs) = (h, All-append us hs)

All-append_now :
    (now : ℕ) (ts : List ℕ)
    → All (λ (t : ℕ). t ≤ now) ts
    → All (λ (t : ℕ). t ≤ now) (ts ++ (now ∷ []))
All-append_now now [] h = (omega arith, tt)
All-append_now now (t ∷ ts) (h, hs) = (h, All-append_now now ts hs)

IsBucket-append :
    (most now : ℕ) (ts : List ℕ)
    → IsBucket most now ts
    → length ts < most
    → IsBucket most now (ts ++ (now ∷ []))
IsBucket-append most now ts (sorted, past, few) room = (
  IsSorted-append now ts sorted past,
  All-append_now now ts past,
  omega (arith, length-append ts (now ∷ [])),
)

In-insert :
    (k j : String) (b v : List ℕ) (d : List (String × List ℕ))
    → In (k, b) (insert j v d)
    → (b ≡ v) ⊎ In (k, b) d
unfolding insert
In-insert k j b v [] (inl e) = inl (ap (λ (p : String × List ℕ). p.1) e)
In-insert k j b v [] (inr m) = absurd m
In-insert k j b v ((i, w) ∷ d) m = elim (Bool-cases (string_eq.beq i j)) [
  | inl same ↦ elim (rw same at m) [
    | inl e ↦ inl (ap (λ (p : String × List ℕ). p.1) e)
    | inr m' ↦ inr (inr m')
  ]
  | inr other ↦ elim (rw other at m) [
    | inl e ↦ inr (inl e)
    | inr m' ↦ elim (In-insert k j b v d m') [ inl e ↦ inl e | inr m'' ↦ inr (inr m'') ]
  ]
]

module _ (most now : ℕ) where
  IsTimely-insert :
      (k : String) (ts : List ℕ) (s : State)
      → IsTimely most now s
      → IsBucket most now ts
      → IsTimely most now (record s { hits = insert k ts s.hits })
  IsTimely-insert k ts s h b = record {
    bucket = λ j us m. elim (In-insert j k us ts s.hits m) [
      | inl e ↦ subst (IsBucket most now) (sym e) b
      | inr m' ↦ h.bucket j us m'
    ];
  }

  IsTimely-count_call : (s : State) → IsTimely most now s → IsTimely most now (count_call s)
  unfolding count_call purge_empty_buckets
  IsTimely-count_call s h = elim (Bool-cases (leb purge_every (s.calls_since_purge + 1))) [
    | inl purges ↦ rw purges (record {
      bucket = λ k ts m.
          h.bucket k ts
            (In-of_keep_if (λ (kb : String × List ℕ). not (is_empty kb.1)) (k, ts) s.hits m).0;
    })
    | inr counts ↦ rw counts (record { bucket = h.bucket })
  ]

  IsTimely-append_hit :
      (k : String) (ts : List ℕ) (s : State)
      → IsTimely most now s
      → IsBucket most now ts
      → length ts < most
      → IsTimely most now (record s { hits = append_hit k now ts s.hits })
  unfolding append_hit
  IsTimely-append_hit k ts s h b room = elim (Bool-cases (is_some (lookup k s.hits))) [
    | inl there ↦
        rw there (IsTimely-insert k (ts ++ (now ∷ [])) s h (IsBucket-append most now ts b room))
    | inr gone ↦ rw gone (record { bucket = h.bucket })
  ]

module _ (most before now : ℕ) (later : before ≤ now) (s : State) (h : IsTimely most before s) where
  IsTimely-mono : IsTimely most now s
  IsTimely-mono = record {
    bucket = λ k ts m. IsBucket-mono most before now later ts (h.bucket k ts m);
  }

  IsBucket-bucket_at : (k : String) → IsBucket most now (bucket_at k now s)
  unfolding bucket_at
  IsBucket-bucket_at k = IsBucket-drop_old most before now later _ (stored (lookup k s.hits) refl)
    where
      stored : (o : Option (List ℕ)) → lookup k s.hits ≡ o → IsBucket most before (get_or [] o)
      stored none e = (tt, tt, omega arith)
      stored (some ts) e = h.bucket k ts (lookup-In k ts s.hits e)

  admit-IsTimely :
      (limit : ℕ) (k : String) → limit ≤ most → IsTimely most now (admit limit k now s).1
  unfolding admit
  admit-IsTimely limit k fits =
      let ts = bucket_at k now s in
      let b = IsBucket-bucket_at k in
      let counted =
        IsTimely-count_call most now _ (IsTimely-insert most now k ts s IsTimely-mono b) in
      elim (Bool-cases (leb limit (length ts))) [
        | inl full ↦ rw full counted
        | inr room ↦
            rw room (IsTimely-append_hit most now k ts _ counted b (below (length ts) room))
      ]
    where
      below : (n : ℕ) → leb limit n ≡ false → n < most
      below n e = ground arith

-- Where every bucket is sorted, without hits after an earlier time, and with no more hits than the
-- larger of the two limits, every bucket is so at the time of a request after this request.
pub check_rate_limit-IsTimely :
    (env : Settings) (client_key path : String) (before now : ℕ) (s : State)
    → before ≤ now
    → IsTimely (bound env) before s
    → IsTimely (bound env) now (check_rate_limit env client_key path now s).1
unfolding check_rate_limit
check_rate_limit-IsTimely env client_key path before now s later h =
    elim (Bool-cases (not env.enabled || is_exempt path)) [
      | inl free ↦ rw free (IsTimely-mono (bound env) before now later s h)
      | inr limited ↦ rw limited (
          admit-IsTimely (bound env) before now later s h (limit_for_path env path) _
            (limit_for_path-le env path))
    ]
