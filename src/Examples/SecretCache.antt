-- ===== src/Examples/SecretCache.antt =====
-- Calls on the cache of src/agentit/secret_classify_cache.py.
use agent_it.Base.{List, [], ◌∷◌, ◌≡◌, some, refl}
use agent_it.SecretCache.{
  Key, key_eq, Classification, Call, touching, deleting, upserting, lookup_row, run,
}
use agent_it.SecretCache.Seen.{seen, lookup_row-seen}

abbrev token : Key
token = ("shop", ("config.py", "9f2c"))

abbrev placeholder : Classification
placeholder = record {
  secret_type = "token";
  outcome = "placeholder";
  confidence = 95;
  reason = "an example value";
  source = "llm";
}

abbrev calls : List Call
calls =
    upserting token placeholder
    ∷ touching token
    ∷ deleting ("shop", ("config.py", "0000"))
    ∷ upserting token placeholder
    ∷ []

lookup_row-seen_example : lookup_row token (run calls []) ≡ seen token calls
lookup_row-seen_example = lookup_row-seen token calls

three_hits : lookup_row token (run calls []) ≡ some (placeholder, 3)
unfolding lookup_row run agent_it.SecretCache.call agent_it.SecretCache.touch
    agent_it.SecretCache.upsert agent_it.SecretCache.delete agent_it.Base.lookup
    agent_it.Base.insert agent_it.Base.remove
three_hits = refl
