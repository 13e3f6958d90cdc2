-- ===== src/Consumer/Letters.antt =====
-- A message that always fails is dead-lettered once, at its last retry.
use agent_it.Base.{
  ℕ, zero, suc, ◌+◌, ◌≤◌, Bool, true, false, none, List, [], ◌∷◌, ◌≡◌, refl, ap, ◌∙◌, arith, leb,
  lookup, insert, remove, lookup-insert, lookup-remove, get_or, Bool-cases, inl, inr, keep_if,
  le→leb,
}
use agent_it.Consumer.{
  Message, Key, key_eq, retry_key, partition_key, State, Faults, Outcome, Step, dead_letter,
  is_held, commit_resolved, give_up, on_failure, consume_one, consume_all,
}

-- The handler raises, and nothing else does.
abbrev pub failing : Faults
failing = record { handler = true; commit_fault = false; letter = false; last_commit = false }

abbrev pub repeat : ℕ → Message × Faults → List (Message × Faults)
repeat zero x = []
repeat (suc n) x = x ∷ repeat n x

abbrev pub is_letter : Step → Bool
is_letter (dead_letter m) = true
is_letter _ = false

abbrev pub letters : State → List Step
letters s = keep_if is_letter s.log

abbrev pub count_of : Message → State → ℕ
count_of m s = get_or 0 (lookup (retry_key m) s.retry_counts)

-- What a run is to show: it returns, with one dead letter more, and without a retry count.
pub record IsLettered (m : Message) (s : State) (o : Outcome) : Type 0 where
  returned : o.0 ≡ true
  letter : letters o.1 ≡ dead_letter m ∷ letters s
  forgotten : lookup (retry_key m) o.1.retry_counts ≡ none

pub key_refl : (k : Key) → key_eq.beq k k ≡ true
key_refl k = (key_eq.beq_iff k k).1 refl

module _ (max_retries : ℕ) (m : Message) where
  -- A retry that is not the last.
  consume_one_again :
      (s : State)
      → leb max_retries (count_of m s + 1) ≡ false
      → ((consume_one max_retries failing m s).0 ≡ true)
        × (letters (consume_one max_retries failing m s).1 ≡ letters s)
        × (count_of m (consume_one max_retries failing m s).1 ≡ count_of m s + 1)
  unfolding consume_one on_failure
  consume_one_again s more =
      rw
        (
          more,
          lookup-insert (retry_key m) (retry_key m) (count_of m s + 1) s.retry_counts,
          key_refl (retry_key m),
        )
        (refl, refl, refl)

  consume_one_last :
      (s : State)
      → leb max_retries (count_of m s + 1) ≡ true
      → IsLettered m s (consume_one max_retries failing m s)
  unfolding consume_one on_failure give_up commit_resolved
  consume_one_last s last =
      let gone = removed (count_of m s + 1) s.retry_counts in
      elim (Bool-cases (is_held (lookup (partition_key m) s.blocked_offset) m.offset)) [
        | inl held ↦ rw (last, held) (record { returned = refl; letter = refl; forgotten = gone })
        | inr free ↦ rw (last, free) (record { returned = refl; letter = refl; forgotten = gone })
      ]
    where
      removed :
          (c : ℕ) (d : List (Key × ℕ))
          → lookup (retry_key m) (remove (retry_key m) (insert (retry_key m) c d)) ≡ none
      removed c d =
          rw
            (
              lookup-remove (retry_key m) (retry_key m) (insert (retry_key m) c d),
              key_refl (retry_key m),
            )
            refl

  -- After `count` failures of the message and before `left` more and the last.
  letters_from :
      (left : ℕ) (s : State)
      → count_of m s + suc left ≡ max_retries
      → IsLettered m s (consume_all max_retries (repeat (suc left) (m, failing)) s)
  unfolding consume_all
  letters_from zero s e =
      let h = consume_one_last s (le→leb max_retries (count_of m s + 1) (omega arith)) in
      rw h.returned (record { returned = refl; letter = h.letter; forgotten = h.forgotten })
  letters_from (suc left) s e =
      let (goes_on, same, count) = consume_one_again s (more (count_of m s) e) in
      let h = letters_from left (consume_one max_retries failing m s).1 (rw count (omega arith)) in
      rw goes_on (record {
        returned = h.returned;
        letter = h.letter ∙ ap (λ (l : List Step). dead_letter m ∷ l) same;
        forgotten = h.forgotten;
      })
    where
      more : (c : ℕ) → c + suc (suc left) ≡ max_retries → leb max_retries (c + 1) ≡ false
      more c e = ground arith

-- Where a message is delivered `max_retries` times in a row, at least once, with no retry count for
-- its topic and offset before, and its handler raises each time while neither the dead letter nor a
-- commit raises, it is dead-lettered exactly once; the loop goes on, and its retry count is dropped.
pub consume_all-IsLettered :
    (max_retries : ℕ) (m : Message) (s : State)
    → 1 ≤ max_retries
    → lookup (retry_key m) s.retry_counts ≡ none
    → IsLettered m s (consume_all max_retries (repeat max_retries (m, failing)) s)
consume_all-IsLettered zero m s positive fresh = absurd (omega arith)
consume_all-IsLettered (suc left) m s positive fresh =
    letters_from (suc left) m left s (rw fresh (omega arith))
