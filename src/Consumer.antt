-- ===== src/Consumer.antt =====
-- src/agentit/consumer.py: the consume loop of `EventConsumer`, with its retries, its dead letters and
-- the commits that it holds back. The theorems stand in Consumer/Retries and Consumer/Commits.
pub mod Letters
pub mod Retries
pub mod Commits
use agent_it.Base.{
  ℕ, ◌+◌, String, Bool, true, false, ◌&&◌, not, Option, none, some, List, [], ◌∷◌, leb, ◌==◌,
  if◌then◌else◌, lookup, insert, remove, get_or, Eq, pair_eq, string_eq, nat_eq,
}

-- A Kafka message without its value, which only the handler reads.
pub record Message : Type 0 where
  pub topic : String
  pub partition : ℕ
  pub offset : ℕ

abbrev pub Key : Type 0
Key = String × ℕ

instance abbrev pub key_eq : Eq Key
key_eq = pair_eq string_eq nat_eq

abbrev pub retry_key : Message → Key
retry_key m = (m.topic, m.offset)

abbrev pub partition_key : Message → Key
partition_key m = (m.topic, m.partition)

-- The calls that leave the process, newest first.
pub data Step : Type 0 where
  handle commit dead_letter : Message → Step
  close : Step

-- What the loop changes: `_retry_counts`, `_blocked_offset`, and the calls.
pub record State : Type 0 where
  pub retry_counts : List (Key × ℕ)
  pub blocked_offset : List (Key × ℕ)
  pub log : List Step

-- Which calls raise at one message: the handler, the commit after it, `_dead_letter`, and the
-- commit after that.
pub record Faults : Type 0 where
  pub handler : Bool
  pub commit_fault : Bool
  pub letter : Bool
  pub last_commit : Bool

-- A state after code that returned (`true`) or raised.
abbrev pub Outcome : Type 0
Outcome = Bool × State

-- Whether an earlier failure of the partition holds the commit of `offset` back.
abbrev pub is_held : Option ℕ → ℕ → Bool
is_held none offset = false
is_held (some blocked) offset = not (blocked == offset)

unfoldable pub commit_resolved : Bool → Message → State → Outcome
commit_resolved raises m s =
    if is_held (lookup (partition_key m) s.blocked_offset) m.offset then (true, s) else (
      not raises,
      record s {
        blocked_offset = remove (partition_key m) s.blocked_offset;
        log = commit m ∷ s.log;
      },
    )

-- `d.setdefault(k, v)`
abbrev pub or_insert : Option ℕ → Key → ℕ → List (Key × ℕ) → List (Key × ℕ)
or_insert none k v d = insert k v d
or_insert (some _) k v d = d

abbrev pub set_default : Key → ℕ → List (Key × ℕ) → List (Key × ℕ)
set_default k v d = or_insert (lookup k d) k v d

-- The branch of `except` for the last retry.
unfoldable pub give_up : Faults → Message → State → Outcome
unfolding commit_resolved
give_up w m s =
    let sent = record s { log = dead_letter m ∷ s.log } in
    let resolved = record sent { retry_counts = remove (retry_key m) s.retry_counts } in
    if w.letter then (false, sent) else commit_resolved w.last_commit m resolved

unfoldable pub on_failure : ℕ → Faults → Message → State → Outcome
unfolding give_up
on_failure max_retries w m s =
    let count = get_or 0 (lookup (retry_key m) s.retry_counts) + 1 in
    let counted = record s { retry_counts = insert (retry_key m) count s.retry_counts } in
    if leb max_retries count then give_up w m counted else (
      true,
      record counted { blocked_offset = set_default (partition_key m) m.offset s.blocked_offset },
    )

-- The body of the `try` after the handler returned.
unfoldable pub on_success : Faults → Message → State → Outcome
unfolding commit_resolved
on_success w m s =
    commit_resolved w.commit_fault m
      (record s { retry_counts = remove (retry_key m) s.retry_counts })

-- An exception of the commit goes to the same `except` as one of the handler.
abbrev pub or_on_failure : ℕ → Faults → Message → Outcome → Outcome
unfolding on_failure
or_on_failure max_retries w m (true, s) = (true, s)
or_on_failure max_retries w m (false, s) = on_failure max_retries w m s

-- One message; `false` where an exception leaves the loop.
unfoldable pub consume_one : ℕ → Faults → Message → State → Outcome
unfolding on_failure on_success or_on_failure
consume_one max_retries w m s =
    let handled = record s { log = handle m ∷ s.log } in
    if w.handler
    then on_failure max_retries w m handled
    else or_on_failure max_retries w m (on_success w m handled)

unfoldable pub consume_all : ℕ → List (Message × Faults) → State → Outcome
unfolding consume_one
consume_all max_retries [] s = (true, s)
consume_all max_retries ((m, w) ∷ rest) s =
    let (returned, s') = consume_one max_retries w m s in
    let after = consume_all max_retries rest s' in if returned then after else (false, s')

abbrev pub closed : Outcome → Outcome
closed (returned, s) = (returned, record s { log = close ∷ s.log })

-- Without a Kafka consumer nothing is consumed; with one, it is closed at the end in any case.
unfoldable pub consume : Bool → ℕ → List (Message × Faults) → State → Outcome
unfolding consume_all
consume connected max_retries messages s =
    if connected then closed (consume_all max_retries messages s) else (true, s)
