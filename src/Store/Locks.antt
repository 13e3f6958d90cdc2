-- ===== src/Store/Locks.antt =====
-- The table `delivery_locks` of portal/store/deliveries.py. Times are whole seconds.
use agent_it.Base.{
  ℕ, ◌+◌, ◌≤◌, ◌<◌, String, Bool, true, false, Option, none, some, List, [], ◌∷◌, ◌≡◌, ◌≢◌, refl,
  ap, ◌∙◌, arith, ltb, lt→ltb, if◌then◌else◌, lookup, insert, remove, lookup-insert, lookup-remove,
  string_eq, All, Bool-cases, inl, inr,
}

-- `lock_key` and `claimed_at`
abbrev pub Locks : Type 0
Locks = List (String × ℕ)

abbrev pub stale_after_seconds : ℕ
stale_after_seconds = 1800

-- `INSERT … ON CONFLICT … DO UPDATE … WHERE claimed_at < now - stale_after RETURNING lock_key`
claim_row : Option ℕ → String → ℕ → Locks → Bool × Locks
claim_row none key now locks = (true, insert key now locks)
claim_row (some claimed_at) key now locks =
    if ltb (claimed_at + stale_after_seconds) now
    then (true, insert key now locks)
    else (false, locks)

unfoldable pub claim_delivery_lock : String → ℕ → Locks → Bool × Locks
unfolding claim_row
claim_delivery_lock key now locks = claim_row (lookup key locks) key now locks

unfoldable pub release_delivery_lock : String → Locks → Locks
release_delivery_lock key locks = remove key locks

-- The calls of the deliveries on the table, in the order in which the database runs them.
pub data Call : Type 0 where
  claim : String → ℕ → Call
  release : String → Call

unfoldable pub call : Call → Locks → Locks
unfolding claim_delivery_lock release_delivery_lock
call (claim key now) locks = (claim_delivery_lock key now locks).1
call (release key) locks = release_delivery_lock key locks

unfoldable pub run : List Call → Locks → Locks
unfolding call
run [] locks = locks
run (c ∷ calls) locks = run calls (call c locks)

-- A call that leaves the lock of `key` with the holder of `claimed_at`: it claims another key, or
-- this one while the lock is not stale, and it does not release this key.
abbrev pub Respects : String → ℕ → Call → Type 0
Respects key claimed_at (claim k now) = k ≡ key → now ≤ claimed_at + stale_after_seconds
Respects key claimed_at (release k) = k ≢ key

-- The lock of `key` is held since `claimed_at`.
abbrev pub IsHeld : String → ℕ → Locks → Type 0
IsHeld key claimed_at locks = lookup key locks ≡ some claimed_at

claim_row-refused :
    (key : String) (claimed_at now : ℕ) (locks : Locks)
    → now ≤ claimed_at + stale_after_seconds
    → claim_row (some claimed_at) key now locks ≡ (false, locks)
unfolding claim_row
claim_row-refused key claimed_at now locks h = rw (not_stale claimed_at now h) refl
  where
    not_stale : (c n : ℕ) → n ≤ c + stale_after_seconds → ltb (c + stale_after_seconds) n ≡ false
    not_stale c n h = ground arith

claim-refused :
    (key : String) (claimed_at now : ℕ) (locks : Locks)
    → IsHeld key claimed_at locks
    → now ≤ claimed_at + stale_after_seconds
    → claim_delivery_lock key now locks ≡ (false, locks)
unfolding claim_delivery_lock
claim-refused key claimed_at now locks held h =
    rw held (claim_row-refused key claimed_at now locks h)

-- A claim of another key leaves this one.
lookup-claim_other :
    (key k : String) (now : ℕ) (locks : Locks)
    → string_eq.beq k key ≡ false
    → lookup key (claim_delivery_lock k now locks).1 ≡ lookup key locks
unfolding claim_delivery_lock
lookup-claim_other key k now locks other = by_row (lookup k locks)
  where
    by_row : (o : Option ℕ) → lookup key (claim_row o k now locks).1 ≡ lookup key locks
    by_row none = rw (lookup-insert k key now locks, other) refl
    by_row (some c) = elim (Bool-cases (ltb (c + stale_after_seconds) now)) [
      | inl stale ↦ rw (stale, lookup-insert k key now locks, other) refl
      | inr fresh ↦ rw fresh refl
    ]

call-IsHeld :
    (key : String) (claimed_at : ℕ) (c : Call) (locks : Locks)
    → IsHeld key claimed_at locks
    → Respects key claimed_at c
    → IsHeld key claimed_at (call c locks)
unfolding call release_delivery_lock
call-IsHeld key claimed_at (claim k now) locks held h = elim (Bool-cases (string_eq.beq k key)) [
  | inl same ↦
      let e = (string_eq.beq_iff k key).0 same in
      rw
        (ap (λ (j : String). (claim_delivery_lock j now locks).1) e
          ∙ ap (λ (r : Bool × Locks). r.1) (claim-refused key claimed_at now locks held (h e)))
        held
  | inr other ↦ lookup-claim_other key k now locks other ∙ held
]
call-IsHeld key claimed_at (release k) locks held h = elim (Bool-cases (string_eq.beq k key)) [
  | inl same ↦ absurd (h ((string_eq.beq_iff k key).0 same))
  | inr other ↦ rw (lookup-remove k key locks, other) held
]

-- A lock that is held stays held under calls that respect it.
run-keeps :
    (key : String) (claimed_at : ℕ) (calls : List Call) (locks : Locks)
    → IsHeld key claimed_at locks
    → All (Respects key claimed_at) calls
    → IsHeld key claimed_at (run calls locks)
unfolding run
run-keeps key claimed_at [] locks held respects = held
run-keeps key claimed_at (c ∷ calls) locks held (respect, respects) =
    run-keeps key claimed_at calls (call c locks) (call-IsHeld key claimed_at c locks held respect)
      respects

-- A claim that is granted writes its time.
claim_row-IsHeld :
    (o : Option ℕ) (key : String) (now : ℕ) (locks : Locks)
    → (claim_row o key now locks).0 ≡ true
    → IsHeld key now (claim_row o key now locks).1
unfolding claim_row
claim_row-IsHeld none key now locks h =
    rw (lookup-insert key key now locks, (string_eq.beq_iff key key).1 refl) refl
claim_row-IsHeld (some c) key now locks h = elim (Bool-cases (ltb (c + stale_after_seconds) now)) [
  | inl stale ↦
      rw stale (rw (lookup-insert key key now locks, (string_eq.beq_iff key key).1 refl) refl)
  | inr fresh ↦ absurd (cc (rw fresh at h))
]

-- After a claim that gets the lock of a key, and any calls of other deliveries that do not release
-- the key and claim it only within the 1800 seconds, the lock is still held since that claim, and
-- one more claim within the 1800 seconds is refused and changes nothing.
pub run-IsHeld :
    (key : String) (claimed_at now : ℕ) (calls : List Call) (locks : Locks)
    → (claim_delivery_lock key claimed_at locks).0 ≡ true
    → All (Respects key claimed_at) calls
    → now ≤ claimed_at + stale_after_seconds
    → let after = run calls (claim_delivery_lock key claimed_at locks).1 in
      IsHeld key claimed_at after × (claim_delivery_lock key now after ≡ (false, after))
unfolding claim_delivery_lock
run-IsHeld key claimed_at now calls locks granted respects h =
    let held =
      run-keeps key claimed_at calls (claim_row (lookup key locks) key claimed_at locks).1
        (claim_row-IsHeld (lookup key locks) key claimed_at locks granted) respects in
    (
      held,
      claim-refused key claimed_at now
          (run calls (claim_row (lookup key locks) key claimed_at locks).1) held h,
    )

-- Where a delivery outlives the 1800 seconds and another one takes its lock over, the release of
-- the first frees the lock of the second: a third claim succeeds at any time.
release-frees_other :
    (key : String) (first second third : ℕ) (locks : Locks)
    → IsHeld key first locks
    → first + stale_after_seconds < second
    → let (taken, locks') = claim_delivery_lock key second locks in
      (taken ≡ true) × ((claim_delivery_lock key third (release_delivery_lock key locks')).0 ≡ true)
unfolding claim_delivery_lock release_delivery_lock claim_row
release-frees_other key first second third locks held late =
    rw
      (
        held,
        lt→ltb (first + stale_after_seconds) second late,
        lookup-remove key key (insert key second locks),
        (string_eq.beq_iff key key).1 refl,
      )
      (refl, refl)
