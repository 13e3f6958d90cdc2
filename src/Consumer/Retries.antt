-- ===== src/Consumer/Retries.antt =====
-- The retry counts of the consume loop stay below `max_retries`.
use agent_it.Base.{
  ℕ, ◌+◌, ◌<◌, Bool, true, false, some, List, [], ◌∷◌, ◌≡◌, arith, leb, lookup, insert, remove,
  lookup-insert, lookup-remove, get_or, Bool-cases, inl, inr,
}
use agent_it.Consumer.{
  Message, Key, key_eq, retry_key, State, Faults, Outcome, commit_resolved, give_up, on_failure,
  on_success, or_on_failure, consume_one, consume_all, handle,
}

abbrev Counts : Type 0
Counts = List (Key × ℕ)

-- Every count of a dictionary is below the bound.
abbrev AllBelow : ℕ → Counts → Type 0
AllBelow bound d = (k : Key) (n : ℕ) → lookup k d ≡ some n → n < bound

AllBelow-remove :
    (bound : ℕ) (j : Key) (d : Counts) → AllBelow bound d → AllBelow bound (remove j d)
AllBelow-remove bound j d h k n e = ground (arith, lookup-remove j k d, h k n)

AllBelow-insert :
    (bound c : ℕ) (j : Key) (d : Counts)
    → c < bound
    → AllBelow bound d
    → AllBelow bound (insert j c d)
AllBelow-insert bound c j d small h k n e = ground (arith, lookup-insert j k c d, h k n)

AllBelow-remove-insert :
    (bound c : ℕ) (j : Key) (d : Counts)
    → AllBelow bound d
    → AllBelow bound (remove j (insert j c d))
AllBelow-remove-insert bound c j d h k n e =
    ground (arith, lookup-remove j k (insert j c d), lookup-insert j k c d, h k n)

-- Every retry count is below the bound.
pub record IsBounded (max_retries : ℕ) (s : State) : Type 0 where
  pub below : AllBelow max_retries s.retry_counts

module _ (w : Faults) (m : Message) where
  commit_resolved-counts :
      (raises : Bool) (s : State) → (commit_resolved raises m s).1.retry_counts ≡ s.retry_counts
  unfolding commit_resolved
  commit_resolved-counts raises s = ground arith

  give_up-counts :
      (s : State)
      → (give_up w m s).0 ≡ true
      → (give_up w m s).1.retry_counts ≡ remove (retry_key m) s.retry_counts
  unfolding give_up
  give_up-counts s returned = elim (Bool-cases w.letter) [
    | inl raises ↦ absurd (cc (rw raises at returned))
    | inr sends ↦ rw sends (commit_resolved-counts w.last_commit _)
  ]

  on_success-counts :
      (s : State) → (on_success w m s).1.retry_counts ≡ remove (retry_key m) s.retry_counts
  unfolding on_success
  on_success-counts s = commit_resolved-counts w.commit_fault _

module _ (max_retries : ℕ) (w : Faults) (m : Message) where
  on_failure-IsBounded :
      (s : State)
      → IsBounded max_retries s
      → (on_failure max_retries w m s).0 ≡ true
      → IsBounded max_retries (on_failure max_retries w m s).1
  unfolding on_failure
  on_failure-IsBounded s h returned =
      let count = get_or 0 (lookup (retry_key m) s.retry_counts) + 1 in
      let counted = insert (retry_key m) count s.retry_counts in
      elim (Bool-cases (leb max_retries count)) [
        | inl last ↦ record {
          below =
              rw
                (
                  last,
                  give_up-counts w m (record s { retry_counts = counted }) (rw last at returned),
                )
                (AllBelow-remove-insert max_retries count (retry_key m) s.retry_counts h.below);
        }
        | inr more ↦ record {
          below = rw more (
              AllBelow-insert max_retries count (retry_key m) s.retry_counts
                (not-leb max_retries count more) h.below);
        }
      ]
    where
      not-leb : (a b : ℕ) → leb a b ≡ false → b < a
      not-leb a b e = ground arith

  on_success-IsBounded :
      (s : State) → IsBounded max_retries s → IsBounded max_retries (on_success w m s).1
  on_success-IsBounded s h = record {
    below =
        rw (on_success-counts w m s)
          (AllBelow-remove max_retries (retry_key m) s.retry_counts h.below);
  }

  or_on_failure-IsBounded :
      (o : Outcome)
      → IsBounded max_retries o.1
      → (or_on_failure max_retries w m o).0 ≡ true
      → IsBounded max_retries (or_on_failure max_retries w m o).1
  unfolding or_on_failure
  or_on_failure-IsBounded (true, s) h returned = h
  or_on_failure-IsBounded (false, s) h returned = on_failure-IsBounded s h returned

  consume_one-IsBounded :
      (s : State)
      → IsBounded max_retries s
      → (consume_one max_retries w m s).0 ≡ true
      → IsBounded max_retries (consume_one max_retries w m s).1
  unfolding consume_one
  consume_one-IsBounded s h returned =
      let handled = record s { log = handle m ∷ s.log } in
      let bounded : IsBounded max_retries handled = record { below = h.below } in
      elim (Bool-cases w.handler) [
        | inl raises ↦ rw raises (on_failure-IsBounded handled bounded (rw raises at returned))
        | inr returns ↦ rw returns (
            or_on_failure-IsBounded (on_success w m handled) (on_success-IsBounded handled bounded)
              (rw returns at returned))
      ]

-- Where every retry count is below `max_retries`, it is so after a run that no exception leaves.
pub consume_all-IsBounded :
    (max_retries : ℕ) (messages : List (Message × Faults)) (s : State)
    → IsBounded max_retries s
    → (consume_all max_retries messages s).0 ≡ true
    → IsBounded max_retries (consume_all max_retries messages s).1
unfolding consume_all
consume_all-IsBounded max_retries [] s h returned = h
consume_all-IsBounded max_retries ((m, w) ∷ rest) s h returned =
    elim (Bool-cases (consume_one max_retries w m s).0) [
      | inl goes_on ↦ rw goes_on (
          consume_all-IsBounded max_retries rest _
            (consume_one-IsBounded max_retries w m s h goes_on) (rw goes_on at returned))
      | inr stops ↦ absurd (cc (rw stops at returned))
    ]
