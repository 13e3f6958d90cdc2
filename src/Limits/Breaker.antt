-- ===== src/Limits/Breaker.antt =====
-- `CircuitBreaker` of interfaces/breakers.py. Times are whole seconds of the monotonic clock.
use agent_it.Base.{
  ℕ, ◌+◌, ◌≤◌, ◌<◌, String, Bool, true, false, List, [], ◌∷◌, map, ◌≡◌, ◌↔◌, refl, ap, arith, ltb,
  length, if◌then◌else◌,
}

pub record CircuitBreaker : Type 0 where
  pub name : String
  pub threshold : ℕ
  pub reset_after : ℕ
  pub failures : ℕ
  pub last_failure : ℕ

unfoldable pub breaker : String → ℕ → ℕ → CircuitBreaker
breaker name threshold reset_after = record {
  name = name;
  threshold = threshold;
  reset_after = reset_after;
  failures = 0;
  last_failure = 0;
}

-- The clock does not run backwards, so `now - last < reset_after` is `now < last + reset_after`.
unfoldable pub is_open : ℕ → CircuitBreaker → Bool
is_open now b =
    if ltb b.failures b.threshold then false else ltb now (b.last_failure + b.reset_after)

unfoldable pub record_failure : ℕ → CircuitBreaker → CircuitBreaker
record_failure now b = record b { failures = b.failures + 1; last_failure = now }

unfoldable pub record_success : CircuitBreaker → CircuitBreaker
record_success b = record b { failures = 0 }

-- `_ALL_BREAKERS`
abbrev pub all_breakers : List (String × CircuitBreaker)
all_breakers = ("llm", breaker "llm" 3 30) ∷ ("kube", breaker "kube" 5 60) ∷ []

-- `get_circuit_breaker_states`: whether each breaker is open, and its failures.
circuit_breaker_states : ℕ → List (String × CircuitBreaker) → List (String × (Bool × ℕ))
unfolding is_open
circuit_breaker_states now breakers =
    map (λ ((name, b) : String × CircuitBreaker). (name, (is_open now b, b.failures))) breakers

-- What a client reports.
pub data Report : Type 0 where
  failure : ℕ → Report
  success : Report

abbrev pub report : Report → CircuitBreaker → CircuitBreaker
report (failure now) b = record_failure now b
report success b = record_success b

-- A breaker after a history of reports, the newest first.
unfoldable pub after : CircuitBreaker → List Report → CircuitBreaker
after b [] = b
after b (r ∷ rs) = report r (after b rs)

-- The times of the failures since the last success, the newest first.
abbrev pub streak : List Report → List ℕ
streak [] = []
streak (failure now ∷ rs) = now ∷ streak rs
streak (success ∷ rs) = []

module _ (name : String) (threshold reset_after : ℕ) where
  after_failures :
      (h : List Report)
      → (after (breaker name threshold reset_after) h).failures ≡ length (streak h)
  unfolding after breaker record_failure record_success
  after_failures [] = refl
  after_failures (failure now ∷ h) = omega (arith, after_failures h)
  after_failures (success ∷ h) = refl

  after_settings :
      (h : List Report)
      → ((after (breaker name threshold reset_after) h).threshold ≡ threshold)
        × ((after (breaker name threshold reset_after) h).reset_after ≡ reset_after)
  unfolding after breaker record_failure record_success
  after_settings [] = (refl, refl)
  after_settings (failure now ∷ h) = after_settings h
  after_settings (success ∷ h) = after_settings h

  after_last :
      (h : List Report) (t : ℕ) (ts : List ℕ)
      → streak h ≡ t ∷ ts
      → (after (breaker name threshold reset_after) h).last_failure ≡ t
  unfolding after record_failure
  after_last [] t ts e = cc
  after_last (failure now ∷ h) t ts e = cc
  after_last (success ∷ h) t ts e = cc

  opens :
      (now f most last wait : ℕ)
      → ((if ltb f most then false else ltb now (last + wait)) ≡ true)
        ↔ ((most ≤ f) × (now < last + wait))
  opens now f most last wait = (λ e. (ground arith, ground arith), λ (le, lt). ground arith)

  -- Whatever was reported to a breaker with a positive threshold, it is open exactly if at least as
  -- many failures as the threshold were reported since the last success, the newest of them less than
  -- `reset_after` seconds ago.
  pub is_open-after :
      (now : ℕ) (h : List Report)
      → 1 ≤ threshold
      → (is_open now (after (breaker name threshold reset_after) h) ≡ true) ↔ (
          (t : ℕ) × (ts : List ℕ) × (streak h ≡ t ∷ ts)
          × (threshold ≤ length (t ∷ ts))
          × (now < t + reset_after))
  unfolding is_open
  is_open-after now h positive =
      (shown (streak h) refl, λ (t, ts, e, le, lt). test.1 (few t ts e le, new t ts e lt))
    where
      b : CircuitBreaker
      b = after (breaker name threshold reset_after) h

      test :
          (is_open now b ≡ true)
          ↔ ((b.threshold ≤ b.failures) × (now < b.last_failure + b.reset_after))
      test = opens now b.failures b.threshold b.last_failure b.reset_after

      few :
          (t : ℕ) (ts : List ℕ)
          → streak h ≡ t ∷ ts
          → threshold ≤ length (t ∷ ts)
          → b.threshold ≤ b.failures
      few t ts e le = omega (arith, after_failures h, (after_settings h).0, ap length e)

      new :
          (t : ℕ) (ts : List ℕ)
          → streak h ≡ t ∷ ts
          → now < t + reset_after
          → now < b.last_failure + b.reset_after
      new t ts e lt = omega (arith, after_last h t ts e, (after_settings h).1)

      shown :
          (l : List ℕ)
          → streak h ≡ l
          → is_open now b ≡ true
          → (t : ℕ) × (ts : List ℕ) × (streak h ≡ t ∷ ts)
            × (threshold ≤ length (t ∷ ts))
            × (now < t + reset_after)
      shown [] e o = absurd (none_open (test.0 o).0)
        where
          none_open : b.threshold ≤ b.failures → ⊥
          none_open le = omega (arith, after_failures h, (after_settings h).0, ap length e)
      shown (t ∷ ts) e o = (t, ts, e, least, recent)
        where
          least : threshold ≤ length (t ∷ ts)
          least = omega (arith, (test.0 o).0, after_failures h, (after_settings h).0, ap length e)

          recent : now < t + reset_after
          recent = omega (arith, (test.0 o).1, after_last h t ts e, (after_settings h).1)
