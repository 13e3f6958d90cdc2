-- ===== src/SecretCache.antt =====
-- `InMemorySecretClassifyCache` of src/agentit/secret_classify_cache.py: the classifications of
-- secrets by application, file and snippet. The theorem stands in SecretCache/Seen.
pub mod Seen
use agent_it.Base.{
  ℕ, ◌+◌, String, true, false, Option, none, some, List, [], ◌∷◌, ◌≡◌, inl, inr, refl, sym, ap, ◌∙◌,
  lookup, insert, remove, lookup-insert, lookup-remove, Eq, string_eq, pair_eq, if◌then◌else◌,
  Bool-cases,
}

-- `(app_name, file_path, snippet_hash)`
abbrev pub Key : Type 0
Key = String × (String × String)

instance abbrev pub key_eq : Eq Key
key_eq = pair_eq string_eq (pair_eq string_eq string_eq)

-- What a classification says; the confidence is in hundredths.
pub record Classification : Type 0 where
  pub secret_type : String
  pub outcome : String
  pub confidence : ℕ
  pub reason : String
  pub source : String

abbrev pub Row : Type 0
Row = Classification × ℕ

abbrev pub Rows : Type 0
Rows = List (Key × Row)

unfoldable pub lookup_row : Key → Rows → Option Row
lookup_row key rows = lookup key rows

abbrev pub touched : Option Row → Key → Rows → Rows
touched none key rows = rows
touched (some (c, hit_count)) key rows = insert key (c, hit_count + 1) rows

unfoldable pub touch : Key → Rows → Rows
touch key rows = touched (lookup key rows) key rows

abbrev pub next_hit_count : Option Row → ℕ
next_hit_count none = 1
next_hit_count (some (c, hit_count)) = hit_count + 1

unfoldable pub upsert : Key → Classification → Rows → Rows
upsert key c rows = insert key (c, next_hit_count (lookup key rows)) rows

unfoldable pub delete : Key → Rows → Rows
delete key rows = remove key rows

pub data Call : Type 0 where
  touching deleting : Key → Call
  upserting : Key → Classification → Call

unfoldable pub call : Call → Rows → Rows
unfolding touch upsert delete
call (touching key) rows = touch key rows
call (deleting key) rows = delete key rows
call (upserting key c) rows = upsert key c rows

unfoldable pub run : List Call → Rows → Rows
unfolding call
run [] rows = rows
run (c ∷ calls) rows = run calls (call c rows)
