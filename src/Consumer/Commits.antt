-- ===== src/Consumer/Commits.antt =====
-- What the consume loop commits while a failure of a partition is open.
use agent_it.Base.{
  ℕ, ◌+◌, Bool, true, false, none, some, List, [], ◌∷◌, ◌≡◌, refl, ap, sym, ◌∙◌, arith, leb, ◌==◌,
  lookup, insert, remove, lookup-insert, lookup-remove, Bool-cases, ==_refl, inl, inr, keep_if, All,
}
use agent_it.Consumer.{
  Message, Key, key_eq, retry_key, partition_key, State, Faults, Outcome, Step, handle, commit,
  commit_resolved, give_up, on_failure, on_success, or_on_failure, consume_one, consume_all,
}
use agent_it.Consumer.Letters.{failing, count_of, key_refl}

abbrev pub is_commit : Step → Bool
is_commit (commit m) = true
is_commit _ = false

abbrev pub commits : State → List Step
commits s = keep_if is_commit s.log

-- Nothing was committed, and the partition is blocked where it was.
pub record IsHeld (p : Key) (blocked : ℕ) (s : State) (o : Outcome) : Type 0 where
  pub uncommitted : commits o.1 ≡ commits s
  pub still_blocked : lookup p o.1.blocked_offset ≡ some blocked

-- Another message of the partition `p`.
abbrev pub IsOther : Key → ℕ → Message × Faults → Type 0
IsOther p blocked (m, w) = (partition_key m ≡ p) × ((blocked == m.offset) ≡ false)

module _ (m : Message) (blocked : ℕ) (other : (blocked == m.offset) ≡ false) where
  -- The partition of `m` is blocked in `s`.
  abbrev Blocked : State → Type 0
  Blocked s = lookup (partition_key m) s.blocked_offset ≡ some blocked

  on_failure-IsHeld :
      (max_retries : ℕ) (w : Faults) (s : State)
      → Blocked s
      → IsHeld (partition_key m) blocked s (on_failure max_retries w m s)
  unfolding on_failure give_up commit_resolved
  on_failure-IsHeld max_retries w s h = elim (Bool-cases (leb max_retries (count_of m s + 1))) [
    | inl last ↦ elim (Bool-cases w.letter) [
      | inl raises ↦ rw (last, raises) (record { uncommitted = refl; still_blocked = h })
      | inr sends ↦ rw (last, sends, h, other) (record { uncommitted = refl; still_blocked = h })
    ]
    | inr more ↦ rw (more, h) (record { uncommitted = refl; still_blocked = h })
  ]

  consume_one-IsHeld :
      (max_retries : ℕ) (w : Faults) (s : State)
      → Blocked s
      → IsHeld (partition_key m) blocked s (consume_one max_retries w m s)
  unfolding consume_one on_success or_on_failure commit_resolved
  consume_one-IsHeld max_retries w s h = elim (Bool-cases w.handler) [
    | inl raises ↦
        let r = on_failure-IsHeld max_retries w (record s { log = handle m ∷ s.log }) h in
        rw raises (record { uncommitted = r.uncommitted; still_blocked = r.still_blocked })
    | inr returns ↦ rw (returns, h, other) (record { uncommitted = refl; still_blocked = h })
  ]

at_key : {p q : Key} → p ≡ q → (d : List (Key × ℕ)) → lookup p d ≡ lookup q d
at_key e d = ap (λ (k : Key). lookup k d) e

-- While a partition is blocked by a failed offset, a run over messages of this partition with other
-- offsets commits nothing and leaves the block, whatever calls raise.
pub consume_all-IsHeld :
    (max_retries : ℕ) (p : Key) (blocked : ℕ) (messages : List (Message × Faults)) (s : State)
    → lookup p s.blocked_offset ≡ some blocked
    → All (IsOther p blocked) messages
    → IsHeld p blocked s (consume_all max_retries messages s)
unfolding consume_all
consume_all-IsHeld max_retries p blocked [] s h others = record {
  uncommitted = refl;
  still_blocked = h;
}
consume_all-IsHeld max_retries p blocked ((m, w) ∷ rest) s h ((same, other), others) =
    let r = consume_one-IsHeld m blocked other max_retries w s (at_key same s.blocked_offset ∙ h) in
    let open_still =
      sym (at_key same (consume_one max_retries w m s).1.blocked_offset) ∙ r.still_blocked in
    elim (Bool-cases (consume_one max_retries w m s).0) [
      | inl goes_on ↦
          let ih =
            consume_all-IsHeld max_retries p blocked rest (consume_one max_retries w m s).1
              open_still others in
          rw goes_on (record {
            uncommitted = ih.uncommitted ∙ r.uncommitted;
            still_blocked = ih.still_blocked;
          })
      | inr stops ↦ rw stops (record { uncommitted = r.uncommitted; still_blocked = open_still })
    ]

-- The handler returns, and no call raises.
abbrev pub working : Faults
working = record { handler = false; commit_fault = false; letter = false; last_commit = false }

retry_key-ne :
    (m n : Message)
    → (m.offset == n.offset) ≡ false
    → key_eq.beq (retry_key m) (retry_key n) ≡ false
retry_key-ne m n h = ground arith

module _ (max_retries : ℕ) (m : Message) (s : State) where
  -- A retry that is not the last, at a partition that is blocked already.
  consume_one_fails :
      (blocked : ℕ)
      → lookup (partition_key m) s.blocked_offset ≡ some blocked
      → leb max_retries (count_of m s + 1) ≡ false
      → consume_one max_retries failing m s ≡ (
        true,
        record s {
          retry_counts = insert (retry_key m) (count_of m s + 1) s.retry_counts;
          log = handle m ∷ s.log;
        },
      )
  unfolding consume_one on_failure
  consume_one_fails blocked h more = rw (more, h) refl

  -- The message that blocks its partition succeeds.
  consume_one_works :
      lookup (partition_key m) s.blocked_offset ≡ some m.offset
      → consume_one max_retries working m s ≡ (
        true,
        record s {
          retry_counts = remove (retry_key m) s.retry_counts;
          blocked_offset = remove (partition_key m) s.blocked_offset;
          log = commit m ∷ handle m ∷ s.log;
        },
      )
  unfolding consume_one on_success commit_resolved
  consume_one_works h = rw (h, ==_refl m.offset) refl

-- Where a partition is blocked by the message `first`, and `second`, of the same partition and
-- another offset, fails with retries left before `first` succeeds, the loop commits and unblocks the
-- partition while `second` is still counted as failed.
pub consume_all-forgets :
    (max_retries : ℕ) (first second : Message) (s : State)
    → partition_key second ≡ partition_key first
    → (first.offset == second.offset) ≡ false
    → lookup (partition_key first) s.blocked_offset ≡ some first.offset
    → leb max_retries (count_of second s + 1) ≡ false
    → let (returned, after) =
        consume_all max_retries ((second, failing) ∷ (first, working) ∷ []) s in
      (returned ≡ true)
      × (commits after ≡ commit first ∷ commits s)
      × (lookup (partition_key second) after.blocked_offset ≡ none)
      × (lookup (retry_key second) after.retry_counts ≡ some (count_of second s + 1))
unfolding consume_all
consume_all-forgets max_retries first second s same differ blocked more =
    rw
      (
        consume_one_fails max_retries second s first.offset (at_key same s.blocked_offset ∙ blocked)
            more,
        consume_one_works max_retries first
            (record s {
              retry_counts = insert (retry_key second) (count_of second s + 1) s.retry_counts;
              log = handle second ∷ s.log;
            })
            blocked,
      )
      (refl, refl, unblocked, counted)
  where
    unblocked : lookup (partition_key second) (remove (partition_key first) s.blocked_offset) ≡ none
    unblocked =
        at_key same _
        ∙ rw
            (
              lookup-remove (partition_key first) (partition_key first) s.blocked_offset,
              key_refl (partition_key first),
            )
            refl

    counted :
        lookup (retry_key second) (
          remove
            (retry_key first)
            (insert (retry_key second) (count_of second s + 1) s.retry_counts))
        ≡ some (count_of second s + 1)
    counted =
        rw
          (
            lookup-remove (retry_key first) (retry_key second)
                (insert (retry_key second) (count_of second s + 1) s.retry_counts),
            retry_key-ne first second differ,
            lookup-insert (retry_key second) (retry_key second) (count_of second s + 1)
                s.retry_counts,
            key_refl (retry_key second),
          )
          refl
