-- ===== src/Examples/Consumer.antt =====
-- Messages of one partition in src/agentit/consumer.py.
use agent_it.Base.{
  ℕ, ◌+◌, Bool, true, false, some, none, List, [], ◌∷◌, ◌≡◌, refl, leb, lookup, arith,
}
use agent_it.Consumer.{
  Message, State, Faults, key_eq, commit, consume_all, retry_key, partition_key,
}
use agent_it.Consumer.Retries.{IsBounded, consume_all-IsBounded}
use agent_it.Consumer.Letters.{IsLettered, consume_all-IsLettered, failing, repeat, count_of}
use agent_it.Consumer.Commits.{IsHeld, commits, working, consume_all-IsHeld, consume_all-forgets}

abbrev message : ℕ → Message
message offset = record { topic = "assess"; partition = 0; offset = offset }

abbrev fresh : State
fresh = record { retry_counts = []; blocked_offset = []; log = [] }

-- Offset 4 has failed once.
abbrev blocked : State
blocked = record {
  retry_counts = (retry_key (message 4), 1) ∷ [];
  blocked_offset = (partition_key (message 4), 4) ∷ [];
  log = [];
}

abbrev mixed : List (Message × Faults)
mixed = (message 5, failing) ∷ (message 6, working) ∷ []

fresh-IsBounded : IsBounded 3 fresh
unfolding lookup
fresh-IsBounded = record { below = λ k n e. absurd (cc) }

consume_all-IsBounded_example : IsBounded 3 (consume_all 3 mixed fresh).1
unfolding consume_all lookup agent_it.Base.insert
consume_all-IsBounded_example = consume_all-IsBounded 3 mixed fresh fresh-IsBounded refl

consume_all-IsLettered_example :
    IsLettered (message 5) fresh (consume_all 3 (repeat 3 (message 5, failing)) fresh)
unfolding lookup
consume_all-IsLettered_example = consume_all-IsLettered 3 (message 5) fresh (omega arith) refl

consume_all-IsHeld_example :
    IsHeld (partition_key (message 4)) 4 blocked (consume_all 3 mixed blocked)
unfolding lookup
consume_all-IsHeld_example =
    consume_all-IsHeld 3 (partition_key (message 4)) 4 mixed blocked refl
      ((refl, refl), ((refl, refl), tt))

consume_all-forgets_example :
    let (returned, after) =
      consume_all 3 ((message 5, failing) ∷ (message 4, working) ∷ []) blocked in
    (returned ≡ true)
    × (commits after ≡ commit (message 4) ∷ commits blocked)
    × (lookup (partition_key (message 5)) after.blocked_offset ≡ none)
    × (lookup (retry_key (message 5)) after.retry_counts ≡ some (count_of (message 5) blocked + 1))
unfolding lookup
consume_all-forgets_example =
    consume_all-forgets 3 (message 4) (message 5) blocked refl refl refl refl
