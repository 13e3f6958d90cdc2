-- ===== src/Limits/Window.antt =====
-- `check_rate_limit` of portal/rate_limit.py. Times are whole seconds of the monotonic clock.
use agent_it.Base.{
  ℕ, ◌+◌, String, Bool, true, false, ◌||◌, not, List, [], ◌∷◌, ◌++◌, ltb, leb, length, keep_if, any,
  is_empty, if◌then◌else◌, lookup, insert, get_or, is_some, string_eq, str_eq, ◌++ₛ◌,
}
use text.Mathlib.Text.{starts_with}

-- The environment: `is_enabled`, and the two limits of `_limit_for_path`.
pub record Settings : Type 0 where
  pub enabled : Bool
  pub webhook_limit : ℕ
  pub default_limit : ℕ

-- The module's variables: a bucket holds the times of its hits, oldest first.
pub record State : Type 0 where
  pub hits : List (String × List ℕ)
  pub calls_since_purge : ℕ

abbrev pub window_seconds : ℕ
window_seconds = 60

abbrev pub purge_every : ℕ
purge_every = 1000

abbrev pub is_exempt : String → Bool
is_exempt path = any (λ (p : String). str_eq p path) ("/healthz" ∷ "/readyz" ∷ "/metrics" ∷ [])

abbrev pub is_webhook : String → Bool
is_webhook path = starts_with path "/api/webhook/"

abbrev pub limit_for_path : Settings → String → ℕ
limit_for_path env path = if is_webhook path then env.webhook_limit else env.default_limit

abbrev pub bucket_key : String → String → String
bucket_key client_key path =
    client_key ++ₛ ":" ++ₛ (if is_webhook path then "webhook" else "default")

-- `now - t > _WINDOW_SECONDS`
abbrev pub is_old : ℕ → ℕ → Bool
is_old now t = ltb (t + window_seconds) now

-- The loop that pops old hits off the left end.
unfoldable pub drop_old : ℕ → List ℕ → List ℕ
drop_old now [] = []
drop_old now (t ∷ ts) = let rest = drop_old now ts in if is_old now t then rest else t ∷ ts

unfoldable pub purge_empty_buckets : List (String × List ℕ) → List (String × List ℕ)
purge_empty_buckets hits = keep_if (λ (kb : String × List ℕ). not (is_empty kb.1)) hits

-- `bucket.append(now)`: a bucket that the purge has deleted is no longer in `_hits`.
unfoldable pub append_hit : String → ℕ → List ℕ → List (String × List ℕ) → List (String × List ℕ)
append_hit key now bucket hits =
    if is_some (lookup key hits) then insert key (bucket ++ (now ∷ [])) hits else hits

unfoldable pub count_call : State → State
unfolding purge_empty_buckets
count_call s =
    let calls = s.calls_since_purge + 1 in
    if leb purge_every calls
    then record { hits = purge_empty_buckets s.hits; calls_since_purge = 0 }
    else record s { calls_since_purge = calls }

unfoldable pub bucket_at : String → ℕ → State → List ℕ
unfolding drop_old
bucket_at key now s = drop_old now (get_or [] (lookup key s.hits))

-- The part of `check_rate_limit` for a path that is limited.
unfoldable pub admit : ℕ → String → ℕ → State → Bool × State
unfolding bucket_at count_call append_hit
admit limit key now s =
    let bucket = bucket_at key now s in
    let counted = count_call (record s { hits = insert key bucket s.hits }) in
    if leb limit (length bucket)
    then (false, counted)
    else (true, record counted { hits = append_hit key now bucket counted.hits })

unfoldable pub check_rate_limit : Settings → String → String → ℕ → State → Bool × State
unfolding admit
check_rate_limit env client_key path now s =
    if not env.enabled || is_exempt path
    then (true, s)
    else admit (limit_for_path env path) (bucket_key client_key path) now s
